-- ===== src/Network/System.antt =====
-- network_and_security.c: what the program asks of the system, and its small checks. The answers of
-- the system, and what commands print, are parameters; a floating-point number is a whole number of
-- millionths.
use microkernel_benchmark.Prelude.{
  ℕ, List, [], ◌∷◌, ◌++◌, Option, none, some, String, Bool, true, false, ◌||◌, ◌==◌, if◌then◌else◌,
}
use microkernel_benchmark.Prelude.Int.{ℤ}
use microkernel_benchmark.Prelude.Program.{Program, finished, failed}
use microkernel_benchmark.CString.{Bytes, codes}
use microkernel_benchmark.Network.Ciphers.{Ciphers}

-- The figures that curl prints of one download.
pub record Run : Type 0 where
  pub time : ℕ
  pub size : ℕ
  pub speed : ℕ

-- Of a command that is read: `none` where it cannot be run, else its lines.
abbrev pub Output : Type 0
Output = Option (List Bytes)

pub record System : Type 0 where
  pub euid : ℕ
  pub may_read : Bytes → Bool  -- access(path, R_OK) == 0
  pub there_is : Bytes → Bool  -- access(path, F_OK) == 0
  pub uname : Output
  pub auth_log_head : Output
  pub find_libpam : Output
  pub sudo : List ℤ  -- the return values of `system`, for ten attempts
  pub login : List ℤ  -- for five attempts
  pub tcp : Output
  pub udp : Output
  pub openssl_version : Output
  pub openssl_ciphers : Output
  pub shadow : Output
  pub http : ℕ → Option Run  -- `none` where curl cannot be run or prints nothing
  pub https : ℕ → Option Run
  pub dd_made : Bool
  pub real_path : Bool
  pub upload : ℕ → Option (Option ℕ)  -- curl cannot be run; it prints nothing; it prints a time

-- The commands given to `system` and `popen`.
pub data Command : Type 0 where
  uname sudo_true login_user1 whoami ls_shadow cat_shadow append_to_shadow remove_shadow ss_tcp
        ss_udp netstat_tcp netstat_udp head_auth_log find_libpam openssl_version openssl_ciphers
        curl_http curl_https dd_testfile curl_upload find_and_remove_testfile :
      Command

pub data User : Type 0 where
  self user1 : User

-- What the program does and prints, in order.
pub data Event : Type 0 where
  run : User → Command → Event
  diagnostic : String → Event
  detected : Bytes → Event
  privileges : (euid : ℕ) (is_admin : Bool) → Event
  file_access : Bytes → (granted : Bool) → Event
  log_shown : List Bytes → Event
  log_denied : Event
  pam : (is_present : Bool) → Event
  failed_attempts : ℕ → Event
  shadow_skipped : Event
  ports : List ℕ → Event
  os_unsupported : Event
  openssl_shown : List Bytes → Event
  openssl_failed : Event
  ciphers_failed : Event
  ciphers_counted : Ciphers → Event
  root_entry : Bytes → Event
  downloaded : (number : ℕ) → Run → Event
  uploaded : (number time : ℕ) → Event
  download_average : (time speed runs : ℕ) → Event  -- sums, to be divided by `runs`
  upload_average : (time runs : ℕ) → Event
  file_removed : Event

abbrev pub diagnostics : List String → List Event
diagnostics [] = []
diagnostics (m ∷ ms) = diagnostic m ∷ diagnostics ms

-- The diagnostics of a part, and what it printed.
unfoldable pub events_of {ℓ} : {A : Type ℓ} → (A → List Event) → Program A → List Event
events_of show p = diagnostics p.stderr ++ elim p.result [ finished a ↦ show a | failed ↦ [] ]

abbrev pub unknown : Bytes
unknown = codes "UNKNOWN"

-- The first line of `uname -a`, with the events on the way.
unfoldable pub get_os_name : System → List Event × Bytes
get_os_name s = elim s.uname [
  | none ↦ (run self uname ∷ diagnostic "Failed to run uname" ∷ [], unknown)
  | some [] ↦ (run self uname ∷ [], unknown)
  | some (line ∷ _) ↦ (run self uname ∷ [], line)
]

unfoldable pub check_file_access : System → Bytes → List Event
check_file_access s path = file_access path (s.may_read path) ∷ []

unfoldable pub check_admin_privileges : System → List Event
check_admin_privileges s = privileges s.euid (s.euid == 0) ∷ []

unfoldable pub check_openssl_version : System → List Event
check_openssl_version s =
    run self openssl_version
    ∷ elim s.openssl_version [ none ↦ openssl_failed ∷ [] | some lines ↦ openssl_shown lines ∷ [] ]

abbrev pub shadow_commands : User → List Event
shadow_commands user =
    run user whoami
    ∷ run user ls_shadow
    ∷ run user cat_shadow
    ∷ run user append_to_shadow
    ∷ run user remove_shadow
    ∷ []

-- By `su - user1 -c`.
unfoldable pub test_shadow_access_as_user1 : List Event
test_shadow_access_as_user1 = shadow_commands user1

unfoldable pub test_shadow_access_as_current_user : System → List Event
test_shadow_access_as_current_user s =
    if s.euid == 0 then shadow_skipped ∷ [] else shadow_commands self

-- The second half of `check_auth_log`.
unfoldable pub check_pam : System → List Event
check_pam s =
    if s.there_is (codes "/etc/pam.d") || s.there_is (codes "/etc/pam.conf")
    then pam true ∷ []
    else run self find_libpam ∷ elim s.find_libpam [
      | none ↦ pam false ∷ []
      | some [] ↦ pam false ∷ []
      | some (_ ∷ _) ↦ pam true ∷ []
    ]

-- A `head` that cannot be run leaves the function, before the second half.
unfoldable pub check_auth_log : System → List Event
unfolding check_pam
check_auth_log s =
    if s.may_read (codes "/var/log/auth.log")
    then run self head_auth_log ∷ elim s.auth_log_head [
      | none ↦ diagnostic "Failed to read auth.log" ∷ []
      | some lines ↦ log_shown lines ∷ check_pam s
    ]
    else log_denied ∷ check_pam s
