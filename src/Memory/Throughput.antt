-- ===== src/Memory/Throughput.antt =====
-- memory/allocator_throughput.c
use microkernel_benchmark.Prelude.{
  ℕ, zero, suc, ◌+◌, ◌*◌, ◌≡◌, refl, arith, Option, some, List, [], ◌∷◌, Bool, true, ◌&&◌,
  if◌then◌else◌,
}
use microkernel_benchmark.Prelude.Int.{ℤ, pos, ◌-ℤ◌}
use microkernel_benchmark.Timespec.{Timespec, nanos}
use microkernel_benchmark.Prelude.Program.{Program, pure, require, finished, failed, ◌>>=◌, ◌>>◌}
use microkernel_benchmark.Memory.{Pointer, block, free_all}
use microkernel_benchmark.Memory.Fill.{range}

abbrev pub num_allocations : ℕ
num_allocations = 1_000_000

-- The allocation phase: a failure ends the program, and nothing is freed.
unfoldable pub allocate : (ℕ → Bool) → ℕ → ℕ → Program (List Pointer)
allocate ok zero k = pure []
allocate ok (suc n) k = do
  require (ok k) "Failed to allocate memory at iteration"
  pointers ← allocate ok n (k + 1)
  pure (block k ∷ pointers)

-- In nanoseconds.
unfoldable pub get_time : Timespec → ℕ
get_time = nanos

-- What the program prints, the operations and the total time that they are divided by, and the blocks
-- freed, or `none` if the frees are undefined; the array itself is freed behind them.
pub record Report : Type 0 where
  pub total_time : ℤ
  pub operations : ℕ
  pub freed : Option (List ℕ)

-- Both phases. `array` says whether the array of pointers could be allocated, and the clock reads
-- `before` and `behind` around the phases.
unfoldable pub run : Timespec → Timespec → Bool → (ℕ → Bool) → ℕ → Program Report
unfolding allocate get_time
run before behind array ok n = do
  require array "Failed to allocate pointer array"
  pointers ← allocate ok n 0
  pure (record {
    total_time = pos (get_time behind) -ℤ pos (get_time before);
    operations = n * 2;
    freed = free_all pointers;
  })

unfoldable pub main : Timespec → Timespec → Bool → (ℕ → Bool) → Program Report
main before behind array ok = run before behind array ok num_allocations

-- The `n` calls from `k` on all succeed.
pub all_ok : (ℕ → Bool) → ℕ → ℕ → Bool
all_ok ok zero k = true
all_ok ok (suc n) k = ok k && all_ok ok n (k + 1)

pub blocks : ℕ → ℕ → List Pointer
blocks zero k = []
blocks (suc n) k = block k ∷ blocks n (k + 1)

allocate-blocks :
    (ok : ℕ → Bool) (n k : ℕ)
    → (allocate ok n k).result ≡ (if all_ok ok n k then finished (blocks n k) else failed)
unfolding allocate all_ok blocks
allocate-blocks ok zero k = refl
allocate-blocks ok (suc n) k = ground (arith, allocate-blocks ok n (k + 1))

free_all-blocks : (n k : ℕ) → free_all (blocks n k) ≡ some (range n k)
unfolding free_all blocks range
free_all-blocks zero k = refl
free_all-blocks (suc n) k = rw (free_all-blocks n (k + 1))

abbrev pub reported : Timespec → Timespec → ℕ → Report
reported before behind n = record {
  total_time = pos (nanos behind) -ℤ pos (nanos before);
  operations = n * 2;
  freed = some (range n 0);
}

run-range :
    (before behind : Timespec) (array : Bool) (ok : ℕ → Bool) (n : ℕ)
    → (run before behind array ok n).result
      ≡ (if array && all_ok ok n 0 then finished (reported before behind n) else failed)
unfolding run get_time
run-range before behind array ok n = ground (arith, allocate-blocks ok n 0, free_all-blocks n 0)

-- The program runs through exactly when the array and all million blocks can be allocated, and then
-- it frees each block once, in the order of allocation, and reports two million operations in the
-- time between its two readings of the clock; a failure ends it with status 1.
pub main_frees_each_once :
    (before behind : Timespec) (array : Bool) (ok : ℕ → Bool)
    → (main before behind array ok).result ≡ (
        if array && all_ok ok num_allocations 0
        then finished (reported before behind num_allocations)
        else failed)
unfolding main
main_frees_each_once before behind array ok = run-range before behind array ok num_allocations
