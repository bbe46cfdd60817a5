-- ===== src/Memory/Fill.antt =====
-- What the allocating loop leaves in the array, and when it is safe to free the whole array.
use microkernel_benchmark.Prelude.{
  ℕ, zero, suc, ◌+◌, ◌≡◌, refl, ap, none, some, List, [], ◌∷◌, Bool, true, false, Bool-cases, ◌⊎◌,
  inl, inr,
}
use microkernel_benchmark.Memory.{fill, free_all, and_then}

-- k, k + 1, ..., k + n - 1
unfoldable pub range : ℕ → ℕ → List ℕ
range zero k = []
range (suc n) k = k ∷ range n (k + 1)

-- All calls from `k` on, `n` of them, succeed.
abbrev pub AllOk : (ℕ → Bool) → ℕ → ℕ → Type 0
AllOk ok zero k = Unit
AllOk ok (suc n) k = (ok k ≡ true) × AllOk ok n (k + 1)

-- One of the calls before the last fails.
abbrev pub FailsEarly : (ℕ → Bool) → ℕ → ℕ → Type 0
FailsEarly ok zero k = ⊥
FailsEarly ok (suc zero) k = ⊥
FailsEarly ok (suc (suc n)) k = (ok k ≡ false) ⊎ FailsEarly ok (suc n) (k + 1)

pub free_all-fill :
    (ok : ℕ → Bool) (n k : ℕ) → AllOk ok n k → free_all (fill ok n k) ≡ some (range n k)
unfolding fill free_all range
free_all-fill ok zero k h = refl
free_all-fill ok (suc n) k (good, rest) = rw (good, free_all-fill ok n (k + 1) rest)

-- With an early failure the freeing loop meets a pointer that was never written.
pub free_all-FailsEarly :
    (ok : ℕ → Bool) (n k : ℕ) → FailsEarly ok n k → free_all (fill ok n k) ≡ none
unfolding fill free_all
free_all-FailsEarly ok zero k h = elim h [ ]
free_all-FailsEarly ok (suc zero) k h = elim h [ ]
free_all-FailsEarly ok (suc (suc n)) k h = elim (Bool-cases (ok k)) [
  | inl good ↦
      rw good
        (ap (and_then (some (k ∷ []))) (free_all-FailsEarly ok (suc n) (k + 1) (later h good)))
  | inr bad ↦ rw bad
]
  where
    later :
        (ok k ≡ false) ⊎ FailsEarly ok (suc n) (k + 1) → ok k ≡ true → FailsEarly ok (suc n) (k + 1)
    later (inl bad) good = absurd (cc)
    later (inr l) good = l

-- If only the last call can fail, the loop frees what was allocated.
pub free_all-defined :
    (ok : ℕ → Bool) (n k : ℕ)
    → ¬ FailsEarly ok n k
    → (freed : List ℕ) × (free_all (fill ok n k) ≡ some freed)
unfolding fill free_all
free_all-defined ok zero k h = ([], refl)
free_all-defined ok (suc zero) k h = elim (Bool-cases (ok k)) [
  | inl good ↦ (k ∷ [], rw good)
  | inr bad ↦ ([], rw bad)
]
free_all-defined ok (suc (suc n)) k h = elim (Bool-cases (ok k)) [
  | inl good ↦
      let (freed, e) = free_all-defined ok (suc n) (k + 1) (λ l. h (inr l)) in
      (k ∷ freed, rw good (ap (and_then (some (k ∷ []))) e))
  | inr bad ↦ absurd (h (inl bad))
]

pub dec_FailsEarly : (ok : ℕ → Bool) (n k : ℕ) → FailsEarly ok n k ⊎ (¬ FailsEarly ok n k)
dec_FailsEarly ok zero k = inr (λ h. h)
dec_FailsEarly ok (suc zero) k = inr (λ h. h)
dec_FailsEarly ok (suc (suc n)) k = elim (Bool-cases (ok k)) [
  | inr bad ↦ inl (inl bad)
  | inl good ↦ elim (dec_FailsEarly ok (suc n) (k + 1)) [
    | inl l ↦ inl (inr l)
    | inr no_later ↦ inr (λ h. elim h [ inl bad ↦ cc | inr l ↦ no_later l ])
  ]
]
