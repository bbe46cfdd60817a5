-- ===== src/Network/Main.antt =====
-- `main` of network_and_security.c, which turns to the tests of one of two systems.
pub mod Harmless
pub mod Safety
use microkernel_benchmark.Prelude.{
  ℕ, List, [], ◌∷◌, flatten, Option, none, some, Bool, true, false, if◌then◌else◌,
}
use microkernel_benchmark.Prelude.Program.{Program}
use microkernel_benchmark.CString.{Bytes, codes, has_text}
use microkernel_benchmark.Network.Ports.{
  ubuntu_check_tcp_ports, ubuntu_check_udp_ports, qnx_check_tcp_ports, qnx_check_udp_ports,
}
use microkernel_benchmark.Network.Ciphers.{
  Ciphers, check_openssl_ciphers, test_failed_sudo_attempts, qnx_test_failed_login_attempts,
  print_shadow_root_line,
}
use microkernel_benchmark.Network.System.{
  System, Output, Command, sudo_true, login_user1, ss_tcp, ss_udp, netstat_tcp, netstat_udp,
  openssl_ciphers, self, Event, run, detected, failed_attempts, ports, os_unsupported,
  ciphers_counted, ciphers_failed, root_entry, events_of, get_os_name, check_file_access,
  check_admin_privileges, check_openssl_version, test_shadow_access_as_user1,
  test_shadow_access_as_current_user, check_auth_log,
}
use microkernel_benchmark.Network.Throughput.{
  test_network_download_throughput, test_https_upload_throughput,
}

-- One command for each attempt.
abbrev pub attempts {ℓ} : {A : Type ℓ} → Command → List A → List Event
attempts command [] = []
attempts command (_ ∷ rets) = run self command ∷ attempts command rets

-- A scanner at what the command gives.
abbrev pub scanned : Command → (Bool → List Bytes → Program (List ℕ)) → Output → List Event
unfolding events_of
scanned command check none = run self command ∷ events_of (λ p. ports p ∷ []) (check false [])
scanned command check (some lines) =
    run self command ∷ events_of (λ p. ports p ∷ []) (check true lines)

unfoldable pub ubuntu_tests : System → List Event
unfolding test_failed_sudo_attempts test_shadow_access_as_current_user ubuntu_check_tcp_ports
    ubuntu_check_udp_ports
ubuntu_tests s = flatten (
    attempts sudo_true s.sudo
    ∷ (failed_attempts (test_failed_sudo_attempts s.sudo) ∷ [])
    ∷ test_shadow_access_as_current_user s
    ∷ scanned ss_tcp ubuntu_check_tcp_ports s.tcp
    ∷ scanned ss_udp ubuntu_check_udp_ports s.udp
    ∷ [])

unfoldable pub qnx_tests : System → List Event
unfolding qnx_test_failed_login_attempts test_shadow_access_as_user1 qnx_check_tcp_ports
    qnx_check_udp_ports
qnx_tests s = flatten (
    attempts login_user1 s.login
    ∷ (failed_attempts (qnx_test_failed_login_attempts s.login) ∷ [])
    ∷ test_shadow_access_as_user1
    ∷ scanned netstat_tcp qnx_check_tcp_ports s.tcp
    ∷ scanned netstat_udp qnx_check_udp_ports s.udp
    ∷ [])

unfoldable pub os_tests : System → Bytes → List Event
unfolding has_text ubuntu_tests qnx_tests
os_tests s os_name =
    if has_text (codes "Ubuntu") os_name
    then ubuntu_tests s
    else if has_text (codes "QNX") os_name
    then qnx_tests s
    else os_unsupported ∷ []

abbrev pub ciphers_shown : Option Ciphers → List Event
ciphers_shown none = ciphers_failed ∷ []
ciphers_shown (some c) = ciphers_counted c ∷ []

abbrev pub root_shown : Option Bytes → List Event
root_shown none = []
root_shown (some line) = root_entry line ∷ []

unfoldable pub cryptography_tests : System → List Event
unfolding check_openssl_version check_openssl_ciphers print_shadow_root_line events_of
cryptography_tests s = flatten (
    check_openssl_version s
    ∷ (run self openssl_ciphers ∷ ciphers_shown (check_openssl_ciphers s.openssl_ciphers))
    ∷ events_of root_shown (print_shadow_root_line s.shadow)
    ∷ [])

unfoldable pub main : System → List Event
unfolding get_os_name check_admin_privileges check_file_access check_auth_log os_tests
    cryptography_tests test_network_download_throughput test_https_upload_throughput
main s = flatten (
    (get_os_name s).0
    ∷ (detected (get_os_name s).1 ∷ [])
    ∷ check_admin_privileges s
    ∷ check_file_access s (codes "/etc/passwd")
    ∷ check_file_access s (codes "/etc/shadow")
    ∷ check_auth_log s
    ∷ os_tests s (get_os_name s).1
    ∷ cryptography_tests s
    ∷ test_network_download_throughput s
    ∷ test_https_upload_throughput s
    ∷ [])
