-- ===== src/Network/Ciphers.antt =====
-- network_and_security.c: the counters of its cipher summary and of the password attempts, and the
-- line of /etc/shadow that it shows. What the commands print and return is a parameter.
use microkernel_benchmark.Prelude.{
  ℕ, zero, suc, ◌+◌, ◌≡◌, ap, arith, List, [], ◌∷◌, length, Option, none, some, Bool, false, inl,
  inr, sym, ◌∙◌, Bool-cases, if◌then◌else◌,
}
use microkernel_benchmark.Prelude.Int.{ℤ, pos, negsuc}
use microkernel_benchmark.Prelude.Program.{Program, pure, ◌>>◌, warn_unless}
use microkernel_benchmark.CString.{Bytes, codes, has_prefix, has_text}

pub record Ciphers : Type 0 where
  pub total : ℕ
  pub sha256_count : ℕ
  pub sha384_count : ℕ
  pub poly1305_count : ℕ

-- `if (strstr(line, needle)) count++;`
abbrev pub bump : Bytes → Bytes → ℕ → ℕ
unfolding has_text
bump needle line count = if has_text needle line then count + 1 else count

unfoldable pub count_line : Bytes → Ciphers → Ciphers
unfolding bump
count_line line c = record {
  total = c.total + 1;
  sha256_count = bump (codes "SHA256") line c.sha256_count;
  sha384_count = bump (codes "SHA384") line c.sha384_count;
  poly1305_count = bump (codes "POLY1305") line c.poly1305_count;
}

unfoldable pub count_lines : List Bytes → Ciphers → Ciphers
unfolding count_line
count_lines [] c = c
count_lines (line ∷ lines) c = count_lines lines (count_line line c)

-- `none` is a command that cannot be run.
unfoldable pub check_openssl_ciphers : Option (List Bytes) → Option Ciphers
unfolding count_lines
check_openssl_ciphers none = none
check_openssl_ciphers (some lines) = some (
    count_lines lines
      (record { total = 0; sha256_count = 0; sha384_count = 0; poly1305_count = 0 }))

-- `if (ret != 0) failed++;` over the return values of `system`, one for each attempt.
unfoldable pub count_failed : List ℤ → ℕ → ℕ
count_failed [] failed = failed
count_failed (pos zero ∷ rets) failed = count_failed rets failed
count_failed (pos (suc n) ∷ rets) failed = count_failed rets (failed + 1)
count_failed (negsuc n ∷ rets) failed = count_failed rets (failed + 1)

unfoldable pub test_failed_sudo_attempts : List ℤ → ℕ
unfolding count_failed
test_failed_sudo_attempts rets = count_failed rets 0

unfoldable pub qnx_test_failed_login_attempts : List ℤ → ℕ
unfolding count_failed
qnx_test_failed_login_attempts rets = count_failed rets 0

unfoldable pub root_line : List Bytes → Option Bytes
unfolding has_prefix
root_line [] = none
root_line (line ∷ lines) =
    let rest = root_line lines in if has_prefix (codes "root:") line then some line else rest

-- `none` is a file that cannot be opened; the line is printed.
unfoldable pub print_shadow_root_line : Option (List Bytes) → Program (Option Bytes)
unfolding root_line
print_shadow_root_line none =
    warn_unless false "Unable to open /etc/shadow (are you root?)" >> pure none
print_shadow_root_line (some lines) = pure (root_line lines)

-- How many elements pass a test.
abbrev pub count {ℓ} : {A : Type ℓ} → (A → Bool) → List A → ℕ
count test [] = 0
count test (x ∷ xs) = if test x then suc (count test xs) else count test xs

counted : List Bytes → Ciphers → Ciphers
counted lines c = record {
  total = c.total + length lines;
  sha256_count = c.sha256_count + count (has_text (codes "SHA256")) lines;
  sha384_count = c.sha384_count + count (has_text (codes "SHA384")) lines;
  poly1305_count = c.poly1305_count + count (has_text (codes "POLY1305")) lines;
}

eq_of_counts :
    {c d : Ciphers}
    → c.total ≡ d.total
    → c.sha256_count ≡ d.sha256_count
    → c.sha384_count ≡ d.sha384_count
    → c.poly1305_count ≡ d.poly1305_count
    → c ≡ d
eq_of_counts t a b p i = record {
  total = t i;
  sha256_count = a i;
  sha384_count = b i;
  poly1305_count = p i;
}

bump-count :
    (needle line : Bytes) (lines : List Bytes) (n : ℕ)
    → bump needle line n + count (has_text needle) lines
      ≡ n + count (has_text needle) (line ∷ lines)
unfolding bump
bump-count needle line lines n = elim (Bool-cases (has_text needle line)) [
  | inl e ↦ ground arith
  | inr e ↦ ground arith
]

counted-cons :
    (line : Bytes) (lines : List Bytes) (c : Ciphers)
    → counted lines (count_line line c) ≡ counted (line ∷ lines) c
unfolding count_line counted
counted-cons line lines c =
    eq_of_counts (omega arith) (bump-count (codes "SHA256") line lines c.sha256_count)
      (bump-count (codes "SHA384") line lines c.sha384_count)
      (bump-count (codes "POLY1305") line lines c.poly1305_count)

counted-nil : (c : Ciphers) → counted [] c ≡ c
unfolding counted
counted-nil c = eq_of_counts (omega arith) (omega arith) (omega arith) (omega arith)

count_lines-counted : (lines : List Bytes) (c : Ciphers) → count_lines lines c ≡ counted lines c
unfolding count_lines
count_lines-counted [] c = sym (counted-nil c)
count_lines-counted (line ∷ lines) c =
    count_lines-counted lines (count_line line c) ∙ counted-cons line lines c

-- When `openssl ciphers` runs, each counter is the number of lines of its output that hold the word
-- it is named after, and the total is the number of lines.
pub check_openssl_ciphers-counts :
    (lines : List Bytes)
    → check_openssl_ciphers (some lines)
      ≡ some (record {
        total = length lines;
        sha256_count = count (has_text (codes "SHA256")) lines;
        sha384_count = count (has_text (codes "SHA384")) lines;
        poly1305_count = count (has_text (codes "POLY1305")) lines;
      })
unfolding check_openssl_ciphers counted
check_openssl_ciphers-counts lines = ap some (
    count_lines-counted lines _
    ∙ eq_of_counts (omega arith) (omega arith) (omega arith) (omega arith))
