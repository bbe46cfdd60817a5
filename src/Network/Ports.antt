-- ===== src/Network/Ports.antt =====
-- The four port scanners of network_and_security.c: they read the listening sockets from a
-- command's output and print each port once. A line is what fgets leaves in the buffer.
pub mod Unique
pub mod Addresses
use microkernel_benchmark.Prelude.{
  ℕ, ◌+◌, List, [], ◌∷◌, ◌++◌, Option, none, some, Bool, true, false, ◌&&◌, not, ltb, ◌==◌,
  if◌then◌else◌,
}
use microkernel_benchmark.Prelude.Int.{ℤ, pos, negsuc}
use microkernel_benchmark.Prelude.Program.{Program, pure, ◌>>=◌, ◌>>◌, warn_unless}
use microkernel_benchmark.CString.{Bytes, codes, has_byte, after_last, has_text, tokens, atoi}

abbrev pub max_port : ℕ
max_port = 65536

-- `seen_ports`, and what has been printed, in order.
pub record Scan : Type 0 where
  pub seen : ℕ → Bool
  pub printed : List ℕ

abbrev pub blank : Scan
blank = record { seen = λ _. false; printed = [] }

-- `if (port > 0 && port < 65536 && !seen_ports[port])`
unfoldable pub note : ℤ → Scan → Scan
note (negsuc n) s = s
note (pos port) s =
    if ltb 0 port && ltb port max_port && not (s.seen port)
    then record {
      seen = λ q. if q == port then true else s.seen q;
      printed = s.printed ++ port ∷ [];
    }
    else s

-- The number behind the last separator of a token, if anything stands there.
unfoldable pub port_of : ℕ → Bytes → Option ℤ
unfolding after_last atoi
port_of sep token = elim (after_last sep token) [
  | none ↦ none
  | some rest ↦ elim rest [ [] ↦ none | c ∷ cs ↦ some (atoi (c ∷ cs)) ]
]

-- Ubuntu: the first token with a colon. Nothing behind it is looked at.
unfoldable pub first_address : List Bytes → Option ℤ
unfolding has_byte port_of
first_address [] = none
first_address (t ∷ ts) =
    let rest = first_address ts in if has_byte b':' t then port_of b':' t else rest

unfoldable pub ubuntu_line : Bytes → Option ℤ
unfolding has_text tokens first_address
ubuntu_line line = if has_text (codes "Local") line then none else first_address (tokens 32 line)

-- QNX: the fourth token; `field` counts those before.
unfoldable pub fourth_field : ℕ → List Bytes → Option ℤ
unfolding port_of
fourth_field field [] = none
fourth_field field (t ∷ ts) =
    let rest = fourth_field (field + 1) ts in if field + 1 == 4 then port_of b'.' t else rest

unfoldable pub qnx_line : Bytes → Option ℤ
unfolding tokens fourth_field
qnx_line line = fourth_field 0 (tokens 32 line)

-- What a line leads to: a token with nothing behind its separator is passed over.
unfoldable pub note_found : Option ℤ → Scan → Scan
unfolding note
note_found none s = s
note_found (some port) s = note port s

-- `while (fgets(line, ..))`
unfoldable pub scan : (Bytes → Option ℤ) → List Bytes → Scan → Scan
unfolding note_found
scan read [] s = s
scan read (line ∷ lines) s = scan read lines (note_found (read line) s)

-- The ports printed; a command that cannot be run is reported. `lines` is its output.
unfoldable pub check_ports : (Bytes → Option ℤ) → Bool → List Bytes → Program (List ℕ)
unfolding scan
check_ports read true lines = pure (scan read lines blank).printed
check_ports read false lines = warn_unless false "Failed to run" >> pure []

unfoldable pub ubuntu_check_tcp_ports : Bool → List Bytes → Program (List ℕ)
unfolding check_ports ubuntu_line
ubuntu_check_tcp_ports = check_ports ubuntu_line

unfoldable pub ubuntu_check_udp_ports : Bool → List Bytes → Program (List ℕ)
unfolding check_ports ubuntu_line
ubuntu_check_udp_ports = check_ports ubuntu_line

unfoldable pub qnx_check_tcp_ports : Bool → List Bytes → Program (List ℕ)
unfolding check_ports qnx_line
qnx_check_tcp_ports = check_ports qnx_line

unfoldable pub qnx_check_udp_ports : Bool → List Bytes → Program (List ℕ)
unfolding check_ports qnx_line
qnx_check_udp_ports = check_ports qnx_line
