-- ===== src/Files/ReadWrite/Whole.antt =====
-- read.c: the bytes written and the bytes read.
use Prim.Native.Nat.{min}
use native.Mathlib.Decide.{ℕ_discrete}
use microkernel_benchmark.Prelude.{
  ℕ, zero, suc, ◌+◌, ◌-◌, ◌*◌, ◌/◌, ◌<◌, ◌≤◌, ◌≡◌, ap, ◌∙◌, arith, refl, Option, none, some, true,
}
use microkernel_benchmark.Prelude.Program.{pure}
use microkernel_benchmark.Files.ReadWrite.{
  Ticks, elapsed, timed, buffer_size, num_blocks, written, write_blocks, read_blocks, write_test,
  read_test, main,
}

-- The blocks of a file, the last one perhaps shorter.
abbrev pub blocks : ℕ → ℕ
blocks size = (size + 4095) / 4096

read_step :
    (fuel left calls bytes got : ℕ)
    → min buffer_size left ≡ suc got
    → read_blocks (suc fuel) left calls bytes
      ≡ read_blocks fuel (left - suc got) (calls + 1) (bytes + suc got)
unfolding read_blocks
read_step fuel left calls bytes got e = rw (read_blocks, e) refl

read_end :
    (fuel left calls bytes : ℕ)
    → min buffer_size left ≡ 0
    → read_blocks (suc fuel) left calls bytes ≡ some (calls + 1, bytes)
unfolding read_blocks
read_end fuel left calls bytes e = rw (read_blocks, e) refl

found : {a b c d : ℕ} → a ≡ b → c ≡ d → ◌≡◌ {A = Option (ℕ × ℕ)} (some (a, c)) (some (b, d))
found e f i = some (e i, f i)

read_blocks_all :
    (fuel left calls bytes : ℕ)
    → blocks left < fuel
    → read_blocks fuel left calls bytes ≡ some (calls + blocks left + 1, bytes + left)
read_blocks_all zero left calls bytes enough = absurd (omega arith)
read_blocks_all (suc fuel) left calls bytes enough = elim (ℕ_discrete left 0) [
  | yes empty ↦ read_end fuel left calls bytes (omega arith) ∙ found (omega arith) (omega arith)
  | no more ↦
      read_step fuel left calls bytes (min buffer_size left - 1) (omega arith)
      ∙ read_blocks_all fuel _ (calls + 1) _ (omega arith)
      ∙ found (omega arith) (omega arith)
]

write_blocks-bound : (room : ℕ → ℕ) (n i size : ℕ) → write_blocks room n i size ≤ size + n * 4096
unfolding write_blocks
write_blocks-bound room zero i size = omega arith
write_blocks-bound room (suc n) i size =
    omega (arith, write_blocks-bound room n (i + 1) (size + min buffer_size (room i)))

whole :
    (fuel size : ℕ) → blocks size < fuel → read_blocks fuel size 0 0 ≡ some (blocks size + 1, size)
whole fuel size enough = read_blocks_all fuel size 0 0 enough ∙ found (omega arith) (omega arith)

fuel_left : (room : ℕ → ℕ) (n fuel : ℕ) → n < fuel → blocks (write_blocks room n 0 0) < fuel
fuel_left room n fuel enough = omega (arith, write_blocks-bound room n 0 0)

written_left : (room : ℕ → ℕ) (fuel : ℕ) → num_blocks < fuel → blocks (written room) < fuel
unfolding written
written_left room = fuel_left room num_blocks

-- If both opens succeed, then, however much of each block the disk takes, a fuel of one more than
-- the number of blocks is enough for the read loop to end, the bytes that it reads are as many as
-- were written, the ticks between the two readings around each loop are reported, and no file is
-- left.
pub main_reads_all :
    (writing reading : Ticks) (room : ℕ → ℕ) (fuel : ℕ) (before : Option ℕ)
    → num_blocks < fuel
    → main true true writing reading room fuel before
      ≡ pure (record {
        write_time = some (elapsed writing);
        found = some ((blocks (written room) + 1, written room), elapsed reading);
        left = none;
      })
unfolding main write_test read_test
main_reads_all writing reading room fuel before enough =
    ap
      (λ r.
        pure (record { write_time = some (elapsed writing); found = timed reading r; left = none }))
      (whole fuel (written room) (written_left room fuel enough))
