-- ===== src/Network/Main/Safety.antt =====
-- network_and_security.c run as root: what it does to /etc/shadow.
use microkernel_benchmark.Prelude.{◌≡◌, refl, arith, All, [], ◌∷◌, Option, false, ◌==◌}
use microkernel_benchmark.CString.{Bytes, codes}
use microkernel_benchmark.Network.Ciphers.{
  Ciphers, print_shadow_root_line, check_openssl_ciphers, test_failed_sudo_attempts,
  qnx_test_failed_login_attempts,
}
use microkernel_benchmark.Network.System.{
  System, self, run, user1, detected, privileges, file_access, failed_attempts, openssl_ciphers,
  shadow_commands, sudo_true, login_user1, ss_tcp, ss_udp, netstat_tcp, netstat_udp, events_of,
  get_os_name, check_file_access, check_admin_privileges, check_openssl_version,
  test_shadow_access_as_user1, check_auth_log,
}
use microkernel_benchmark.Network.Throughput.{
  test_network_download_throughput, test_https_upload_throughput,
}
use microkernel_benchmark.Network.Main.{
  ciphers_shown, root_shown, ubuntu_tests, qnx_tests, os_tests, cryptography_tests, main,
}
use microkernel_benchmark.Network.Main.Harmless.{
  damages, Harmless, events_of-Harmless, attempts-Harmless, scanned-Harmless, get_os_name-Harmless,
  check_auth_log-Harmless, shadow-Harmless, openssl-Harmless, flatten-Harmless, upload-Harmless,
  download-Harmless,
}

ubuntu-Harmless : (s : System) → s.euid ≡ 0 → Harmless (ubuntu_tests s)
unfolding ubuntu_tests
ubuntu-Harmless s root =
    flatten-Harmless
      (_ ∷ (failed_attempts (test_failed_sudo_attempts s.sudo) ∷ []) ∷ _ ∷ _ ∷ _ ∷ [])
      (
        attempts-Harmless sudo_true s.sudo refl,
        (
          (refl, tt),
          (
            shadow-Harmless s root,
            (scanned-Harmless ss_tcp _ s.tcp refl, (scanned-Harmless ss_udp _ s.udp refl, tt)),
          ),
        ),
      )

qnx-Harmless : (s : System) → Harmless (qnx_tests s)
unfolding qnx_tests test_shadow_access_as_user1
qnx-Harmless s =
    flatten-Harmless
      (_
        ∷ (failed_attempts (qnx_test_failed_login_attempts s.login) ∷ [])
        ∷ shadow_commands user1
        ∷ _
        ∷ _
        ∷ [])
      (
        attempts-Harmless login_user1 s.login refl,
        (
          (refl, tt),
          (
            (refl, (refl, (refl, (refl, (refl, tt))))),
            (
              scanned-Harmless netstat_tcp _ s.tcp refl,
              (scanned-Harmless netstat_udp _ s.udp refl, tt),
            ),
          ),
        ),
      )

os_tests-Harmless : (s : System) (os_name : Bytes) → s.euid ≡ 0 → Harmless (os_tests s os_name)
unfolding os_tests
os_tests-Harmless s os_name root = ground (arith, ubuntu-Harmless s root, qnx-Harmless s)

root_shown-Harmless : (o : Option Bytes) → Harmless (root_shown o)
root_shown-Harmless o = ground arith

ciphers_shown-Harmless : (o : Option Ciphers) → Harmless (ciphers_shown o)
ciphers_shown-Harmless o = ground arith

cryptography-Harmless : (s : System) → Harmless (cryptography_tests s)
unfolding cryptography_tests
cryptography-Harmless s =
    flatten-Harmless
      (check_openssl_version s
        ∷ (run self openssl_ciphers ∷ ciphers_shown (check_openssl_ciphers s.openssl_ciphers))
        ∷ events_of root_shown (print_shadow_root_line s.shadow)
        ∷ [])
      (
        openssl-Harmless s,
        (
          (refl, ciphers_shown-Harmless _),
          (events_of-Harmless root_shown (print_shadow_root_line s.shadow) root_shown-Harmless, tt),
        ),
      )

-- A program that runs as root executes no command that writes to /etc/shadow or removes it with its
-- own rights, whatever the system is and answers.
pub root_keeps_shadow : (s : System) → s.euid ≡ 0 → All (λ e. damages e ≡ false) (main s)
unfolding main check_admin_privileges check_file_access
root_keeps_shadow s root =
    flatten-Harmless
      (_
        ∷ (detected (get_os_name s).1 ∷ [])
        ∷ (privileges s.euid (s.euid == 0) ∷ [])
        ∷ (file_access (codes "/etc/passwd") (s.may_read (codes "/etc/passwd")) ∷ [])
        ∷ (file_access (codes "/etc/shadow") (s.may_read (codes "/etc/shadow")) ∷ [])
        ∷ check_auth_log s
        ∷ os_tests s (get_os_name s).1
        ∷ cryptography_tests s
        ∷ test_network_download_throughput s
        ∷ test_https_upload_throughput s
        ∷ [])
      (
        get_os_name-Harmless s,
        (
          (refl, tt),
          (
            (refl, tt),
            (
              (refl, tt),
              (
                (refl, tt),
                (
                  check_auth_log-Harmless s,
                  (
                    os_tests-Harmless s (get_os_name s).1 root,
                    (cryptography-Harmless s, (download-Harmless s, (upload-Harmless s, tt))),
                  ),
                ),
              ),
            ),
          ),
        ),
      )
