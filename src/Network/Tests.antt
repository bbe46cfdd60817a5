-- ===== src/Network/Tests.antt =====
-- The scanners and counters at lines of `ss`, `netstat` and `openssl ciphers -v`.
use microkernel_benchmark.Prelude.{
  arith, ◌++◌, All, false, Any, ℕ, ◌<◌, ◌≡◌, ◌↔◌, refl, List, [], ◌∷◌, none, some, true, ◌==◌,
  if◌then◌else◌,
}
use microkernel_benchmark.Prelude.Int.{pos}
use microkernel_benchmark.Prelude.Program.{pure}
use microkernel_benchmark.CString.{Bytes, codes, has_text, has_byte, decimal}
use microkernel_benchmark.Network.Ports.{
  max_port, blank, scan, ubuntu_line, ubuntu_check_tcp_ports, qnx_check_tcp_ports,
}
use microkernel_benchmark.Network.Ports.{first_address, fourth_field}
use microkernel_benchmark.Network.Ports.Addresses.{first_address-decimal, fourth_field-decimal}
use microkernel_benchmark.Network.Ports.Unique.{Distinct, Names, scan-exact}
use microkernel_benchmark.Network.Ciphers.{
  check_openssl_ciphers, check_openssl_ciphers-counts, test_failed_sudo_attempts,
}
use microkernel_benchmark.Network.System.{System}
use microkernel_benchmark.Network.Main.{main}
use microkernel_benchmark.Network.Main.Harmless.{damages}
use microkernel_benchmark.Network.Main.Safety.{root_keeps_shadow}

abbrev ss_lines : List Bytes
ss_lines =
    codes "tcp   LISTEN 0      128          0.0.0.0:22         0.0.0.0:*\n"
    ∷ codes "tcp   LISTEN 0      4096       127.0.0.1:631        0.0.0.0:*\n"
    ∷ codes "tcp   LISTEN 0      128             [::]:22            [::]:*\n"
    ∷ []

ubuntu_prints_each_once : ubuntu_check_tcp_ports true ss_lines ≡ pure (22 ∷ 631 ∷ [])
unfolding ubuntu_check_tcp_ports
ubuntu_prints_each_once = refl

qnx_reads_the_fourth_field :
    qnx_check_tcp_ports true (codes "tcp        0      0  *.22          *.*      LISTEN\n" ∷ [])
    ≡ pure (22 ∷ [])
unfolding qnx_check_tcp_ports
qnx_reads_the_fourth_field = refl

scan-exact_example :
    Distinct (scan ubuntu_line ss_lines blank).printed
    × ((p : ℕ)
        → Any (λ q. q ≡ p) (scan ubuntu_line ss_lines blank).printed
          ↔ ((0 < p) × (p < max_port) × Any (Names ubuntu_line p) ss_lines))
scan-exact_example = scan-exact ubuntu_line ss_lines

abbrev cipher_lines : List Bytes
cipher_lines =
    codes "TLS_AES_256_GCM_SHA384 TLSv1.3 Kx=any Au=any Enc=AESGCM(256) Mac=AEAD\n"
    ∷ codes "TLS_CHACHA20_POLY1305_SHA256 TLSv1.3 Kx=any Au=any Mac=AEAD\n"
    ∷ []

check_openssl_ciphers-counts_run :
    check_openssl_ciphers (some cipher_lines)
    ≡ some (record { total = 2; sha256_count = 1; sha384_count = 1; poly1305_count = 1 })
unfolding has_text
check_openssl_ciphers-counts_run = check_openssl_ciphers-counts cipher_lines

failures_are_nonzero : test_failed_sudo_attempts (pos 0 ∷ pos 256 ∷ pos 256 ∷ []) ≡ 2
unfolding test_failed_sudo_attempts
failures_are_nonzero = refl

plain :
    All
      (λ token. has_byte b':' token ≡ false)
      (codes "tcp" ∷ codes "LISTEN" ∷ codes "0" ∷ codes "128" ∷ [])
unfolding has_byte
plain = (refl, (refl, (refl, (refl, tt))))

first_address-decimal_example :
    first_address (
      codes "tcp"
      ∷ codes "LISTEN"
      ∷ codes "0"
      ∷ codes "128"
      ∷ (codes "[::]" ++ b':' ∷ decimal 22)
      ∷ codes "[::]:*"
      ∷ [])
    ≡ some (pos 22)
first_address-decimal_example =
    first_address-decimal (codes "tcp" ∷ codes "LISTEN" ∷ codes "0" ∷ codes "128" ∷ [])
      (codes "[::]") 22 (codes "[::]:*" ∷ []) plain (omega arith)

fourth_field-decimal_example :
    fourth_field 0
      (codes "tcp" ∷ codes "0" ∷ codes "0" ∷ (codes "127.0.0.1" ++ b'.' ∷ decimal 22) ∷ [])
    ≡ some (pos 22)
fourth_field-decimal_example =
    fourth_field-decimal (codes "tcp") (codes "0") (codes "0") (codes "127.0.0.1") 22 []
      (omega arith)

-- A download of 100 MB in 8 s each time; the fourth upload fails.
abbrev root_on_ubuntu : System
root_on_ubuntu = record {
  euid = 0;
  may_read = λ _. true;
  there_is = λ _. false;
  uname = some (codes "Linux host 6.8.0-41-generic #41-Ubuntu SMP x86_64 GNU/Linux\n" ∷ []);
  auth_log_head = some (codes "sshd[1]: Server listening\n" ∷ []);
  find_libpam = none;
  sudo = pos 0 ∷ pos 256 ∷ [];
  login = [];
  tcp = some ss_lines;
  udp = none;
  openssl_version = none;
  openssl_ciphers = some cipher_lines;
  shadow = some (codes "root:*:19000:0:99999:7:::\n" ∷ []);
  http = λ _. some (record { time = 8_000_000; size = 104_857_600; speed = 13_107_200 });
  https = λ _. none;
  dd_made = true;
  real_path = true;
  upload = λ i. if i == 3 then none else some (some 2_000_000);
}

root_keeps_shadow_example : All (λ e. damages e ≡ false) (main root_on_ubuntu)
root_keeps_shadow_example = root_keeps_shadow root_on_ubuntu refl
