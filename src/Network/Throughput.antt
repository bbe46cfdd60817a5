-- ===== src/Network/Throughput.antt =====
-- network_and_security.c: ten downloads by HTTP and by HTTPS, and ten uploads, each by a run of
-- curl.
use microkernel_benchmark.Prelude.{
  ℕ, zero, suc, ◌+◌, List, [], ◌∷◌, flatten, Option, none, some, if◌then◌else◌,
}
use microkernel_benchmark.CString.{Bytes, codes, has_text}
use microkernel_benchmark.Network.System.{
  System, Run, Command, curl_http, curl_https, dd_testfile, curl_upload, find_and_remove_testfile,
  self, Event, run, diagnostic, downloaded, uploaded, download_average, upload_average,
  file_removed, get_os_name,
}

-- A loop of downloads with `n` to go, `i` behind it; a run that fails is passed over.
unfoldable pub downloads : Command → (ℕ → Option Run) → ℕ → ℕ → List Event
downloads curl runs zero i = []
downloads curl runs (suc n) i =
    let rest = downloads curl runs n (i + 1) in
    run self curl ∷ elim (runs i) [ none ↦ rest | some r ↦ downloaded (i + 1) r ∷ rest ]

-- `total_http_time` and `total_https_time`, or the totals of the speed.
unfoldable pub total : (Run → ℕ) → (ℕ → Option Run) → ℕ → ℕ → ℕ → ℕ
total figure runs zero i sum = sum
total figure runs (suc n) i sum = elim (runs i) [
  | none ↦ total figure runs n (i + 1) sum
  | some r ↦ total figure runs n (i + 1) (sum + figure r)
]

abbrev pub averages : (ℕ → Option Run) → Event
unfolding total
averages runs =
    download_average (total (λ r. r.time) runs 10 0 0) (total (λ r. r.speed) runs 10 0 0) 10

unfoldable pub test_network_download_throughput : System → List Event
unfolding downloads averages
test_network_download_throughput s = flatten (
    downloads curl_http s.http 10 0
    ∷ downloads curl_https s.https 10 0
    ∷ (averages s.http ∷ averages s.https ∷ [])
    ∷ [])

-- The loop of uploads, and the total of their times.
unfoldable pub uploads : (ℕ → Option (Option ℕ)) → ℕ → ℕ → List Event
uploads runs zero i = []
uploads runs (suc n) i =
    let rest = uploads runs n (i + 1) in
    run self curl_upload ∷ elim (runs i) [
      | none ↦ diagnostic "Failed to run curl" ∷ rest
      | some none ↦ rest
      | some (some time) ↦ uploaded (i + 1) time ∷ rest
    ]

unfoldable pub upload_total : (ℕ → Option (Option ℕ)) → ℕ → ℕ → ℕ → ℕ
upload_total runs zero i sum = sum
upload_total runs (suc n) i sum = elim (runs i) [
  | none ↦ upload_total runs n (i + 1) sum
  | some none ↦ upload_total runs n (i + 1) sum
  | some (some time) ↦ upload_total runs n (i + 1) (sum + time)
]

unfoldable pub clean_up : Bytes → List Event
unfolding has_text
clean_up os_name =
    if has_text (codes "Ubuntu") os_name
    then file_removed ∷ []
    else if has_text (codes "QNX") os_name
    then run self find_and_remove_testfile ∷ []
    else []

-- Behind the creation of the file. The total of the ten times is divided by 20.
unfoldable pub upload_file : System → List Event
unfolding uploads upload_total clean_up get_os_name
upload_file s =
    if s.real_path
    then flatten (
        uploads s.upload 10 0
        ∷ (get_os_name s).0
        ∷ clean_up (get_os_name s).1
        ∷ (upload_average (upload_total s.upload 10 0 0) 20 ∷ [])
        ∷ [])
    else diagnostic "Failed to resolve full path to test file" ∷ []

unfoldable pub test_https_upload_throughput : System → List Event
unfolding upload_file
test_https_upload_throughput s =
    if s.there_is (codes "testfile.dat")
    then upload_file s
    else run self dd_testfile
      ∷ (if s.dd_made then upload_file s else diagnostic "Failed to create test file" ∷ [])
