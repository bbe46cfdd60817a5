-- ===== src/Memory/Fragment/Ownership.antt =====
-- memory/fragment.c: who owns which block.
use microkernel_benchmark.Prelude.{
  ℕ, zero, suc, ◌+◌, ◌%◌, ◌<◌, ◌≤◌, ◌≡◌, refl, ◌∙◌, arith, some, List, [], ◌∷◌, ◌++◌, Bool,
  get_elem?, set, length, length-set, replicate, ◌==◌, if◌then◌else◌, Bool-cases, inl, inr,
}
use microkernel_benchmark.Memory.{Pointer, garbage, null, block, free, fill}
use microkernel_benchmark.Memory.Fill.{FailsEarly}
use microkernel_benchmark.Memory.Fragment.{State, release, release_random}

-- How often block `k` stands in a list of blocks, and in an array.
pub count : ℕ → List ℕ → ℕ
count k [] = 0
count k (x ∷ xs) = (if k == x then 1 else 0) + count k xs

abbrev pub is_block : ℕ → Pointer → ℕ
is_block k garbage = 0
is_block k null = 0
is_block k (block j) = if k == j then 1 else 0

pub held : ℕ → List Pointer → ℕ
held k [] = 0
held k (p ∷ ps) = is_block k p + held k ps

-- Every pointer has been written.
abbrev pub Written : List Pointer → Type 0
Written [] = Unit
Written (garbage ∷ ps) = ⊥
Written (null ∷ ps) = Written ps
Written (block k ∷ ps) = Written ps

count-append : (k : ℕ) (xs ys : List ℕ) → count k (xs ++ ys) ≡ count k xs + count k ys
unfolding count
count-append k [] ys = omega arith
count-append k (x ∷ xs) ys = omega (arith, count-append k xs ys)

held-set :
    (k : ℕ) (ps : List Pointer) (i : ℕ) (p : Pointer)
    → get_elem? ps i ≡ some p
    → held k (set ps i null) + is_block k p ≡ held k ps
unfolding held
held-set k [] i p e = absurd (cc)
held-set k (q ∷ ps) zero p e = ground arith
held-set k (q ∷ ps) (suc i) p e = omega (arith, held-set k ps i p e)

Written-set : (ps : List Pointer) (i : ℕ) → Written ps → Written (set ps i null)
Written-set [] i w = tt
Written-set (garbage ∷ ps) i w = elim w [ ]
Written-set (null ∷ ps) zero w = w
Written-set (null ∷ ps) (suc i) w = Written-set ps i w
Written-set (block k ∷ ps) zero w = w
Written-set (block k ∷ ps) (suc i) w = Written-set ps i w

get-Written :
    (ps : List Pointer) (i : ℕ)
    → Written ps
    → i < length ps
    → (p : Pointer) × (get_elem? ps i ≡ some p) × (ks : List ℕ) × (free p ≡ some ks)
get-Written [] i w lt = absurd (omega arith)
get-Written (garbage ∷ ps) i w lt = elim w [ ]
get-Written (null ∷ ps) zero w lt = (null, refl, [], refl)
get-Written (null ∷ ps) (suc i) w lt = get-Written ps i w (omega arith)
get-Written (block k ∷ ps) zero w lt = (block k, refl, k ∷ [], refl)
get-Written (block k ∷ ps) (suc i) w lt = get-Written ps i w (omega arith)

count-free : (k : ℕ) (p : Pointer) (ks : List ℕ) → free p ≡ some ks → count k ks ≡ is_block k p
unfolding count
count-free k garbage ks e = absurd (cc)
count-free k null ks e = ground arith
count-free k (block j) ks e = let same : j ∷ [] ≡ ks = cc in rw (← same) (omega arith)

-- Rounds of step 2 keep the array written and of its length, and each block is in the array or
-- freed as often as before.
pub record Kept (s s' : State) : Type 0 where
  pub written : Written s'.ptrs
  pub size : length s'.ptrs ≡ length s.ptrs
  pub owned : (k : ℕ) → count k s'.freed + held k s'.ptrs ≡ count k s.freed + held k s.ptrs

release-some :
    (index : ℕ) (s : State) (p : Pointer) (ks : List ℕ)
    → get_elem? s.ptrs index ≡ some p
    → free p ≡ some ks
    → release index s ≡ some (record { ptrs = set s.ptrs index null; freed = s.freed ++ ks })
unfolding release
release-some index s p ks at frees = rw (at, release) (rw frees)

release_random_step :
    (size : ℕ) (rands : ℕ → ℕ) (n i : ℕ) (s s' : State)
    → release (rands i % size) s ≡ some s'
    → release_random size rands (suc n) i s ≡ release_random size rands n (i + 1) s'
unfolding release_random
release_random_step size rands n i s s' e = rw (e, release_random)

release-Kept :
    (index : ℕ) (s : State)
    → Written s.ptrs
    → index < length s.ptrs
    → (s' : State) × (release index s ≡ some s') × Kept s s'
release-Kept index s w lt =
    let (p, at, ks, frees) = get-Written s.ptrs index w lt in
    (
      record { ptrs = set s.ptrs index null; freed = s.freed ++ ks },
      release-some index s p ks at frees,
      record {
        written = Written-set s.ptrs index w;
        size = length-set s.ptrs index null;
        owned = λ k. omega (
          arith,
          count-append k s.freed ks,
          count-free k p ks frees,
          held-set k s.ptrs index p at,
        );
      },
    )

release_random-Kept :
    (size : ℕ) (rands : ℕ → ℕ) (n i : ℕ) (s : State)
    → 0 < size
    → length s.ptrs ≡ size
    → Written s.ptrs
    → (s' : State) × (release_random size rands n i s ≡ some s') × Kept s s'
unfolding release_random
release_random-Kept size rands zero i s pos len w =
    (s, refl, record { written = w; size = refl; owned = λ k. refl })
release_random-Kept size rands (suc n) i s pos len w =
    let (s₁, e₁, k₁) = release-Kept (rands i % size) s w (ground arith) in
    let (s₂, e₂, k₂) =
      release_random-Kept size rands n (i + 1) s₁ pos (omega (arith, k₁.size)) k₁.written in
    (
      s₂,
      release_random_step size rands n i s s₁ e₁ ∙ e₂,
      record {
        written = k₂.written;
        size = omega (arith, k₁.size, k₂.size);
        owned = λ k. omega (arith, k₁.owned k, k₂.owned k);
      },
    )

-- What step 1 leaves if none of its allocations but the last can fail.
fill-Written :
    (ok : ℕ → Bool) (n j : ℕ)
    → ¬ FailsEarly ok n j
    → Written (fill ok n j) × (length (fill ok n j) ≡ n)
unfolding fill
fill-Written ok zero j h = (tt, refl)
fill-Written ok (suc zero) j h = elim (Bool-cases (ok j)) [
  | inl good ↦ rw good (tt, refl)
  | inr bad ↦ rw bad (tt, refl)
]
fill-Written ok (suc (suc n)) j h = elim (Bool-cases (ok j)) [
  | inl good ↦
      let (w, len) = fill-Written ok (suc n) (j + 1) (λ l. h (inr l)) in
      rw good (w, omega (arith, len))
  | inr bad ↦ absurd (h (inl bad))
]

held-replicate : (n k : ℕ) → held k (replicate n garbage) ≡ 0
unfolding held
held-replicate zero k = refl
held-replicate (suc n) k = omega (arith, held-replicate n k)

-- Blocks are numbered by the calls of malloc, so an earlier number is not in the array.
held-fill_before : (ok : ℕ → Bool) (n j k : ℕ) → k < j → held k (fill ok n j) ≡ 0
unfolding fill held
held-fill_before ok zero j k lt = refl
held-fill_before ok (suc n) j k lt =
    ground (arith, held-fill_before ok n (j + 1) k, held-replicate n k)

held-fill-le : (ok : ℕ → Bool) (n j k : ℕ) → held k (fill ok n j) ≤ 1
unfolding fill held
held-fill-le ok zero j k = omega arith
held-fill-le ok (suc n) j k =
    ground (arith, held-fill-le ok n (j + 1) k, held-fill_before ok n (j + 1) k, held-replicate n k)

abbrev pub filled : (ℕ → Bool) → ℕ → State
filled ok size = record { ptrs = fill ok size 0; freed = [] }

-- No block of `s` has been freed twice, or freed and kept.
abbrev pub OwnsOnce : State → Type 0
OwnsOnce s = (k : ℕ) → count k s.freed + held k s.ptrs ≤ 1

-- With every allocation of step 1 but the last granted, step 2 is defined whatever rand() returns:
-- no block is freed twice, and a block that was freed is no longer in the array.
pub no_double_free :
    (ok : ℕ → Bool) (rands : ℕ → ℕ) (size n : ℕ)
    → 0 < size
    → ¬ FailsEarly ok size 0
    → (s : State) × (release_random size rands n 0 (filled ok size) ≡ some s) × OwnsOnce s
unfolding count
no_double_free ok rands size n pos good =
    let (w, len) = fill-Written ok size 0 good in
    let (s, e, kept) = release_random-Kept size rands n 0 _ pos len w in
    (s, e, λ k. omega (arith, kept.owned k, held-fill-le ok size 0 k))
