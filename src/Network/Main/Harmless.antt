-- ===== src/Network/Main/Harmless.antt =====
-- The checks of network_and_security.c one by one: what they run on /etc/shadow.
use microkernel_benchmark.Prelude.{
  All-append, All-flatten, flatten, ℕ, zero, suc, ◌+◌, ◌≡◌, refl, arith, All, List, [], ◌∷◌, ◌++◌,
  Option, none, some, String, Bool, true, false, if◌then◌else◌,
}
use microkernel_benchmark.Prelude.Program.{Program, Result, finished, failed}
use microkernel_benchmark.CString.{Bytes}
use microkernel_benchmark.Network.System.{
  System, Run, Output, Command, append_to_shadow, remove_shadow, self, Event, run, diagnostic,
  upload_average, ports, curl_http, curl_https, diagnostics, events_of, get_os_name,
  check_openssl_version, test_shadow_access_as_current_user, check_auth_log, check_pam,
}
use microkernel_benchmark.Network.Throughput.{
  averages, upload_total, downloads, uploads, clean_up, upload_file,
  test_network_download_throughput, test_https_upload_throughput,
}
use microkernel_benchmark.Network.Main.{attempts, scanned}

-- Writing to /etc/shadow or removing it, with the rights of the program.
abbrev pub damages : Event → Bool
damages (run self append_to_shadow) = true
damages (run self remove_shadow) = true
damages _ = false

abbrev pub Harmless : List Event → Type 0
Harmless = All (λ e. damages e ≡ false)

append-Harmless : (xs ys : List Event) → Harmless xs → Harmless ys → Harmless (xs ++ ys)
append-Harmless = All-append (λ e. damages e ≡ false)

diagnostics-Harmless : (ms : List String) → Harmless (diagnostics ms)
diagnostics-Harmless [] = tt
diagnostics-Harmless (m ∷ ms) = (refl, diagnostics-Harmless ms)

result-Harmless {ℓ} :
    {A : Type ℓ} (show : A → List Event) (r : Result A)
    → ((a : A) → Harmless (show a))
    → Harmless (elim r [ finished a ↦ show a | failed ↦ [] ])
result-Harmless show (finished a) h = h a
result-Harmless show failed h = tt

pub events_of-Harmless {ℓ} :
    {A : Type ℓ} (show : A → List Event) (p : Program A)
    → ((a : A) → Harmless (show a))
    → Harmless (events_of show p)
unfolding events_of
events_of-Harmless show p h =
    append-Harmless _ _ (diagnostics-Harmless p.stderr) (result-Harmless show p.result h)

pub attempts-Harmless :
    {A : Type 0} (command : Command) (rets : List A)
    → damages (run self command) ≡ false
    → Harmless (attempts command rets)
attempts-Harmless command [] h = tt
attempts-Harmless command (_ ∷ rets) h = (h, attempts-Harmless command rets h)

pub scanned-Harmless :
    (command : Command) (check : Bool → List Bytes → Program (List ℕ)) (o : Output)
    → damages (run self command) ≡ false
    → Harmless (scanned command check o)
unfolding scanned
scanned-Harmless command check none h =
    (h, events_of-Harmless (λ p. ports p ∷ []) _ (λ ps. (refl, tt)))
scanned-Harmless command check (some lines) h =
    (h, events_of-Harmless (λ p. ports p ∷ []) _ (λ ps. (refl, tt)))

pub get_os_name-Harmless : (s : System) → Harmless (get_os_name s).0
unfolding get_os_name
get_os_name-Harmless s = ground arith

check_pam-Harmless : (s : System) → Harmless (check_pam s)
unfolding check_pam
check_pam-Harmless s = ground arith

pub check_auth_log-Harmless : (s : System) → Harmless (check_auth_log s)
unfolding check_auth_log
check_auth_log-Harmless s = ground (arith, check_pam-Harmless s)

pub shadow-Harmless : (s : System) → s.euid ≡ 0 → Harmless (test_shadow_access_as_current_user s)
unfolding test_shadow_access_as_current_user
shadow-Harmless s root = ground arith

pub openssl-Harmless : (s : System) → Harmless (check_openssl_version s)
unfolding check_openssl_version
openssl-Harmless s = ground arith

downloads-Harmless :
    (curl : Command) (runs : ℕ → Option Run) (n i : ℕ)
    → damages (run self curl) ≡ false
    → Harmless (downloads curl runs n i)
unfolding downloads
downloads-Harmless curl runs zero i h = tt
downloads-Harmless curl runs (suc n) i h = ground (arith, downloads-Harmless curl runs n (i + 1) h)

uploads-Harmless : (runs : ℕ → Option (Option ℕ)) (n i : ℕ) → Harmless (uploads runs n i)
unfolding uploads
uploads-Harmless runs zero i = tt
uploads-Harmless runs (suc n) i = ground (arith, uploads-Harmless runs n (i + 1))

clean_up-Harmless : (os_name : Bytes) → Harmless (clean_up os_name)
unfolding clean_up
clean_up-Harmless os_name = ground arith

pub flatten-Harmless : (parts : List (List Event)) → All Harmless parts → Harmless (flatten parts)
flatten-Harmless = All-flatten (λ e. damages e ≡ false)

upload_file-Harmless : (s : System) → Harmless (upload_file s)
unfolding upload_file
upload_file-Harmless s =
    elim s.real_path
      as (λ b. Harmless (
        if b
        then flatten (
            uploads s.upload 10 0
            ∷ (get_os_name s).0
            ∷ clean_up (get_os_name s).1
            ∷ (upload_average (upload_total s.upload 10 0 0) 20 ∷ [])
            ∷ [])
        else diagnostic "Failed to resolve full path to test file" ∷ [])) [
          | true ↦
              flatten-Harmless
                (uploads s.upload 10 0
                  ∷ (get_os_name s).0
                  ∷ clean_up (get_os_name s).1
                  ∷ (upload_average (upload_total s.upload 10 0 0) 20 ∷ [])
                  ∷ [])
                (
                  uploads-Harmless s.upload 10 0,
                  (get_os_name-Harmless s, (clean_up-Harmless (get_os_name s).1, ((refl, tt), tt))),
                )
          | false ↦ (refl, tt)
        ]

pub upload-Harmless : (s : System) → Harmless (test_https_upload_throughput s)
unfolding test_https_upload_throughput
upload-Harmless s = ground (arith, upload_file-Harmless s)

pub download-Harmless : (s : System) → Harmless (test_network_download_throughput s)
unfolding test_network_download_throughput
download-Harmless s =
    flatten-Harmless
      (downloads curl_http s.http 10 0
        ∷ downloads curl_https s.https 10 0
        ∷ (averages s.http ∷ averages s.https ∷ [])
        ∷ [])
      (
        downloads-Harmless curl_http s.http 10 0 refl,
        (downloads-Harmless curl_https s.https 10 0 refl, ((refl, (refl, tt)), tt)),
      )
