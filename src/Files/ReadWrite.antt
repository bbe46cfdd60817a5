-- ===== src/Files/ReadWrite.antt =====
-- file_systems/read.c: a file of 1 GB is written in blocks of 4 KB and read back. All its bytes are
-- 'A' and what is read is not looked at, so a file is its size.
pub mod Whole
use microkernel_benchmark.Prelude.{
  ℕ, zero, suc, ◌+◌, ◌-◌, ◌*◌, ◌/◌, Option, none, some, Bool, true, false, if◌then◌else◌,
}
use Prim.Native.Nat.{min}
use microkernel_benchmark.Prelude.Int.{ℤ, pos, ◌-ℤ◌}
use microkernel_benchmark.Prelude.Program.{Program, pure, warn_unless, ◌>>=◌, ◌>>◌}

abbrev pub buffer_size : ℕ
buffer_size = 4096

abbrev pub file_size_mb : ℕ
file_size_mb = 1024

abbrev pub num_blocks : ℕ
num_blocks = file_size_mb * 1024 * 1024 / buffer_size

-- The loop of `fwrite` with `n` blocks to go, from number `i` on; `room i` is what the disk takes
-- of block `i`, and the result of `fwrite` is not looked at.
unfoldable pub write_blocks : (ℕ → ℕ) → ℕ → ℕ → ℕ → ℕ
write_blocks room zero i size = size
write_blocks room (suc n) i size = write_blocks room n (i + 1) (size + min buffer_size (room i))

-- The size that the whole loop leaves.
unfoldable pub written : (ℕ → ℕ) → ℕ
unfolding write_blocks
written room = write_blocks room num_blocks 0 0

-- `while (fread(buffer, 1, BUFFER_SIZE, file) > 0);` with `left` bytes behind the position; the
-- numbers of calls and of bytes. `none` is a loop that is still running.
unfoldable pub read_blocks : ℕ → ℕ → ℕ → ℕ → Option (ℕ × ℕ)
read_blocks zero left calls bytes = none
read_blocks (suc fuel) left calls bytes = elim (min buffer_size left) [
  | zero ↦ some (calls + 1, bytes)
  | suc got ↦ read_blocks fuel (left - suc got) (calls + 1) (bytes + suc got)
]

-- What `clock` gives before and behind a loop.
pub record Ticks : Type 0 where
  pub start : ℕ
  pub end : ℕ

-- `end - start`, of which CLOCKS_PER_SEC make a second.
abbrev pub elapsed : Ticks → ℤ
elapsed t = pos t.end -ℤ pos t.start

-- The size of the file, if there is one, and the time if it is printed; `opens` says whether `fopen` succeeds. `fopen` for writing
-- empties the file.
unfoldable pub write_test : Bool → Ticks → (ℕ → ℕ) → Option ℕ → Program (Option ℕ × Option ℤ)
unfolding written
write_test true t room file = pure (some (written room), some (elapsed t))
write_test false t room file = warn_unless false "File open failed" >> pure (file, none)

-- The calls and the bytes of a loop that has ended, with the time that is printed.
abbrev pub timed : Ticks → Option (ℕ × ℕ) → Option ((ℕ × ℕ) × ℤ)
timed t none = none
timed t (some found) = some (found, elapsed t)

unfoldable pub read_test : Bool → Ticks → ℕ → Option ℕ → Program (Option ((ℕ × ℕ) × ℤ))
unfolding read_blocks
read_test true t fuel (some size) = pure (timed t (read_blocks fuel size 0 0))
read_test true t fuel none = warn_unless false "File open failed" >> pure none
read_test false t fuel file = warn_unless false "File open failed" >> pure none

-- The time of the writing, what is read, and the file that is left.
pub record Run : Type 0 where
  pub write_time : Option ℤ
  pub found : Option ((ℕ × ℕ) × ℤ)
  pub left : Option ℕ

unfoldable pub main : Bool → Bool → Ticks → Ticks → (ℕ → ℕ) → ℕ → Option ℕ → Program Run
unfolding write_test read_test
main opens reopens writing reading room fuel before = do
  (file, time) ← write_test opens writing room before
  found ← read_test reopens reading fuel file
  pure (record { write_time = time; found = found; left = none })
