-- ===== src/Memory/Fragment/Draws.antt =====
-- memory/fragment.c: when the frees at random indices are defined.
use microkernel_benchmark.Prelude.{
  ℕ, zero, suc, ◌+◌, ◌%◌, ◌<◌, ◌≡◌, refl, arith, some, none, get_elem?, Bool, true, false,
  Bool-cases, ◌⊎◌, inl, inr,
}
use microkernel_benchmark.Memory.{garbage, fill}
use microkernel_benchmark.Memory.Fill.{FailsEarly, dec_FailsEarly}
use microkernel_benchmark.Memory.Fragment.{State, release, release_random}
use microkernel_benchmark.Memory.Fragment.Ownership.{filled, OwnsOnce, no_double_free}

-- If an earlier one fails, there is an element that is never written.
fill-garbage :
    (ok : ℕ → Bool) (n j : ℕ)
    → FailsEarly ok n j
    → (i : ℕ) × (i < n) × (get_elem? (fill ok n j) i ≡ some garbage)
unfolding fill
fill-garbage ok zero j h = elim h [ ]
fill-garbage ok (suc zero) j h = elim h [ ]
fill-garbage ok (suc (suc n)) j h = elim (Bool-cases (ok j)) [
  | inr bad ↦ (1, omega arith, rw bad refl)
  | inl good ↦
      let (i, lt, e) = fill-garbage ok (suc n) (j + 1) (later good h) in
      (suc i, omega arith, rw good e)
]
  where
    later :
        ok j ≡ true → (ok j ≡ false) ⊎ FailsEarly ok (suc n) (j + 1) → FailsEarly ok (suc n) (j + 1)
    later good (inl bad) = absurd (cc)
    later good (inr l) = l

release-garbage : (i : ℕ) (s : State) → get_elem? s.ptrs i ≡ some garbage → release i s ≡ none
unfolding release
release-garbage i s e = rw (e, release)

-- A first draw that meets an element which was never written.
draw_undefined :
    (size i n : ℕ) (s : State)
    → i < size
    → get_elem? s.ptrs i ≡ some garbage
    → release_random size (λ k. i) (suc n) 0 s ≡ none
unfolding release_random
draw_undefined size i n s lt e =
    let drawn : i % size ≡ i = grind arith in
    let undefined : release (i % size) s ≡ none = rw drawn (release-garbage i s e) in
    rw (undefined, release_random)

-- Step 2 with at least one round, on an array that has elements. Either no allocation of step 1
-- before the last one fails: then it is defined for all values of rand(), no block is freed twice, and none that
-- was freed is kept in the array; or one of them fails: then there are values of rand() for which a
-- pointer is freed that was never written.
pub random_frees :
    (ok : ℕ → Bool) (size n : ℕ)
    → 0 < size
    → ((¬ FailsEarly ok size 0)
        × ((rands : ℕ → ℕ)
            → (s : State) × (release_random size rands (suc n) 0 (filled ok size) ≡ some s)
              × OwnsOnce s))
      ⊎ (FailsEarly ok size 0
          × (rands : ℕ → ℕ) × (release_random size rands (suc n) 0 (filled ok size) ≡ none))
random_frees ok size n pos = elim (dec_FailsEarly ok size 0) [
  | inr late ↦ inl (late, λ rands. no_double_free ok rands size (suc n) pos late)
  | inl early ↦
      let (i, lt, e) = fill-garbage ok size 0 early in
      inr (early, (λ k. i), draw_undefined size i n (filled ok size) lt e)
]
