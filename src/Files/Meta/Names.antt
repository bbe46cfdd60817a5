-- ===== src/Files/Meta/Names.antt =====
-- The names of file_meta.c, compared with one another.
use mathlib.Core.List.{append_cancel_left, append_cancel_right}
use microkernel_benchmark.Prelude.{
  ℕ, ◌^◌, ◌<◌, ◌≡◌, ◌≢◌, sym, ap, ◌∙◌, arith, Option, some, get_elem?,
}
use microkernel_benchmark.CString.{codes, decimal, strtoull}
use microkernel_benchmark.CString.Decimal.{strtoull-decimal}
use microkernel_benchmark.Files.Meta.{num_files, file, renamed}

decimal-inj : {i j : ℕ} → i < 2 ^ 64 → j < 2 ^ 64 → decimal i ≡ decimal j → i ≡ j
decimal-inj {i} {j} hi hj e = sym (strtoull-decimal i hi) ∙ ap strtoull e ∙ strtoull-decimal j hj

pub file-inj : {i j : ℕ} → i < num_files → j < num_files → file i ≡ file j → i ≡ j
unfolding file
file-inj hi hj e = decimal-inj (omega arith) (omega arith) (
    append_cancel_right _ _ (codes ".txt") (append_cancel_left (codes "meta_test_dir/file_") _ _ e))

pub renamed-inj : {i j : ℕ} → i < num_files → j < num_files → renamed i ≡ renamed j → i ≡ j
unfolding renamed
renamed-inj hi hj e = decimal-inj (omega arith) (omega arith) (
    append_cancel_right _ _ (codes ".txt")
      (append_cancel_left (codes "meta_test_dir/renamed_") _ _ e))

pub file-ne-renamed : (i j : ℕ) → file i ≢ renamed j
unfolding file renamed
file-ne-renamed i j e =
    let letters : ◌≡◌ {A = Option ℕ} (some b'f') (some b'r') = ap (λ name. get_elem? name 14) e in
    ground arith
