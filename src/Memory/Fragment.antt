-- ===== src/Memory/Fragment.antt =====
-- memory/fragment.c
pub mod Ownership
pub mod Draws
use microkernel_benchmark.Prelude.{
  ℕ, zero, suc, ◌+◌, ◌/◌, ◌%◌, Option, none, some, List, [], ◌∷◌, ◌++◌, Bool, get_elem?, set,
  if◌then◌else◌,
}
use microkernel_benchmark.Memory.{Pointer, null, free, fill}

abbrev pub num_allocs : ℕ
num_allocs = 1_000_000

-- The array after some rounds, and the blocks freed so far, in order.
pub record State : Type 0 where
  pub ptrs : List Pointer
  pub freed : List ℕ

-- `free(ptrs[index]); ptrs[index] = NULL;` `none` is undefined behaviour.
unfoldable pub release : ℕ → State → Option State
release index s = elim (get_elem? s.ptrs index) [
  | none ↦ none
  | some p ↦ elim (free p) [
    | none ↦ none
    | some ks ↦ some (record { ptrs = set s.ptrs index null; freed = s.freed ++ ks })
  ]
]

-- Step 2 with `n` rounds to go, in round `i`; `rands i` is the i-th value of rand(), `size` the
-- length of the array.
unfoldable pub release_random : ℕ → (ℕ → ℕ) → ℕ → ℕ → State → Option State
unfolding release
release_random size rands zero i s = some s
release_random size rands (suc n) i s = elim (release (rands i % size) s) [
  | none ↦ none
  | some s' ↦ release_random size rands n (i + 1) s'
]

-- Step 3: the allocations that fail, of `n` from call `k` on.
unfoldable pub count_failed : (ℕ → Bool) → ℕ → ℕ → ℕ
count_failed ok zero k = 0
count_failed ok (suc n) k = let rest = count_failed ok n (k + 1) in if ok k then rest else rest + 1

-- `first` and `again` answer the allocations of step 1 and of step 3.
unfoldable pub main : (ℕ → Bool) → (ℕ → Bool) → (ℕ → ℕ) → Option (State × ℕ)
unfolding fill release_random count_failed
main first again rands =
    elim (release_random num_allocs rands (num_allocs / 2) 0
      (record { ptrs = fill first num_allocs 0; freed = [] })) [
        | none ↦ none
        | some s ↦ some (s, count_failed again (num_allocs / 2) 0)
      ]
