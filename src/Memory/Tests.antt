-- ===== src/Memory/Tests.antt =====
-- Runs of the memory programs on small arrays, and instances of the theorems about them.
use microkernel_benchmark.Prelude.{
  ℕ, ◌≡◌, ◌↔◌, ◌⊎◌, inl, inr, refl, arith, none, some, [], ◌∷◌, true, ◌&&◌, ltb, if◌then◌else◌,
}
use microkernel_benchmark.Prelude.Program.{finished, failed}
use microkernel_benchmark.Timespec.{Timespec}
use microkernel_benchmark.Memory.{null, block, garbage, fill, free_all}
use microkernel_benchmark.Memory.Fill.{FailsEarly}
use microkernel_benchmark.Memory.Malloc
use microkernel_benchmark.Memory.Malloc.{Interval, num_allocs, undefined_iff_FailsEarly}
use microkernel_benchmark.Memory.Throughput
use microkernel_benchmark.Memory.Throughput.{
  num_allocations, all_ok, reported, main_frees_each_once,
}
use microkernel_benchmark.Memory.Fragment.{State, release_random}
use microkernel_benchmark.Memory.Fragment.Ownership.{filled, OwnsOnce, no_double_free}
use microkernel_benchmark.Memory.Fragment.Draws.{random_frees}

-- The third allocation fails.
fill_stops : fill (λ k. ltb k 2) 4 0 ≡ block 0 ∷ block 1 ∷ null ∷ garbage ∷ []
unfolding fill
fill_stops = refl

early_failure : free_all (fill (λ k. ltb k 2) 4 0) ≡ none
unfolding fill free_all
early_failure = refl

last_failure : free_all (fill (λ k. ltb k 3) 4 0) ≡ some (0 ∷ 1 ∷ 2 ∷ [])
unfolding fill free_all
last_failure = refl

-- The second draw of an index frees NULL.
drawn_twice :
    release_random 3 (λ i. 4) 2 0 (record { ptrs = fill (λ k. true) 3 0; freed = [] })
    ≡ some (record { ptrs = block 0 ∷ null ∷ block 2 ∷ []; freed = 1 ∷ [] })
unfolding release_random fill
drawn_twice = refl

abbrev ticks : Interval
ticks = record { start = 10; end = 35 }

undefined_iff_FailsEarly_example :
    (Malloc.main ticks ticks (λ k. ltb k 5) ≡ none) ↔ FailsEarly (λ k. ltb k 5) num_allocs 0
undefined_iff_FailsEarly_example = undefined_iff_FailsEarly ticks ticks (λ k. ltb k 5)

abbrev before : Timespec
before = record { tv_sec = 1; tv_nsec = 999_999_000 }

abbrev behind : Timespec
behind = record { tv_sec = 2; tv_nsec = 500 }

main_frees_each_once_run : (Throughput.main before behind true (λ k. true)).result ≡ (
    if true && all_ok (λ k. true) num_allocations 0
    then finished (reported before behind num_allocations)
    else failed)
main_frees_each_once_run = main_frees_each_once before behind true (λ k. true)

no_double_free_run :
    (s : State) × (release_random 3 (λ i. 4) 2 0 (filled (λ k. true) 3) ≡ some s) × OwnsOnce s
no_double_free_run =
    no_double_free (λ k. true) (λ i. 4) 3 2 (omega arith)
      (λ early. elim early [ inl e ↦ cc | inr l ↦ elim l [ inl e ↦ cc | inr e ↦ e ] ])

random_frees_example :
    ((¬ FailsEarly (λ k. ltb k 1) 3 0)
      × ((rands : ℕ → ℕ)
          → (s : State) × (release_random 3 rands 2 0 (filled (λ k. ltb k 1) 3) ≡ some s)
            × OwnsOnce s))
    ⊎ (FailsEarly (λ k. ltb k 1) 3 0
        × (rands : ℕ → ℕ) × (release_random 3 rands 2 0 (filled (λ k. ltb k 1) 3) ≡ none))
random_frees_example = random_frees (λ k. ltb k 1) 3 1 (omega arith)
