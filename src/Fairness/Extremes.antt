-- ===== src/Fairness/Extremes.antt =====
-- What the figures of a report say of the counts.
use microkernel_benchmark.Prelude.{
  ℕ, ◌+◌, ◌%◌, ◌^◌, ◌≤◌, ◌≡◌, refl, ◌⊎◌, inl, inr, arith, List, [], ◌∷◌, All, Any, Bool-cases, ltb,
  sym, ◌∙◌,
}
use microkernel_benchmark.Fairness.{Statistics, observe, accumulate, statistics}

pub total : List ℕ → ℕ
total [] = 0
total (c ∷ cs) = c + total cs

abbrev pub Between : ℕ → ℕ → ℕ → Type 0
Between lo hi c = (lo ≤ c) × (c ≤ hi)

-- The extremes of the counts, and their sum as unsigned long long.
pub record IsStatistics (counts : List ℕ) (s : Statistics) : Type 0 where
  pub enclosed : All (Between s.min s.max) counts
  pub least : Any (λ c. c ≡ s.min) counts
  pub greatest : Any (λ c. c ≡ s.max) counts
  pub summed : s.sum ≡ total counts % 2 ^ 64

-- The figures only widen.
widens :
    (cs : List ℕ) (s : Statistics)
    → ((accumulate cs s).min ≤ s.min) × (s.max ≤ (accumulate cs s).max)
unfolding accumulate observe
widens [] s = (omega arith, omega arith)
widens (c ∷ cs) s =
    (ground (arith, (widens cs (observe s c)).0), ground (arith, (widens cs (observe s c)).1))

encloses :
    (cs : List ℕ) (s : Statistics) → All (Between (accumulate cs s).min (accumulate cs s).max) cs
unfolding accumulate observe
encloses [] s = tt
encloses (c ∷ cs) s = (
  (ground (arith, (widens cs (observe s c)).0), ground (arith, (widens cs (observe s c)).1)),
  encloses cs (observe s c),
)

least_from :
    (cs : List ℕ) (s : Statistics)
    → ((accumulate cs s).min ≡ s.min) ⊎ Any (λ c. c ≡ (accumulate cs s).min) cs
unfolding accumulate observe
least_from [] s = inl refl
least_from (c ∷ cs) s = elim (least_from cs (observe s c)) [
  | inr a ↦ inr (inr a)
  | inl e ↦ elim (Bool-cases (ltb c s.min)) [
    | inl lt ↦ inr (inl (sym (e ∙ ground arith)))
    | inr ge ↦ inl (e ∙ ground arith)
  ]
]

greatest_from :
    (cs : List ℕ) (s : Statistics)
    → ((accumulate cs s).max ≡ s.max) ⊎ Any (λ c. c ≡ (accumulate cs s).max) cs
unfolding accumulate observe
greatest_from [] s = inl refl
greatest_from (c ∷ cs) s = elim (greatest_from cs (observe s c)) [
  | inr a ↦ inr (inr a)
  | inl e ↦ elim (Bool-cases (ltb s.max c)) [
    | inl lt ↦ inr (inl (sym (e ∙ ground arith)))
    | inr ge ↦ inl (e ∙ ground arith)
  ]
]

sums : (cs : List ℕ) (s : Statistics) → (accumulate cs s).sum % 2 ^ 64 ≡ (s.sum + total cs) % 2 ^ 64
unfolding accumulate observe total
sums [] s = omega arith
sums (c ∷ cs) s = sums cs (observe s c) ∙ omega arith

sum_small :
    (c : ℕ) (cs : List ℕ) (s : Statistics)
    → (accumulate (c ∷ cs) s).sum ≡ (accumulate (c ∷ cs) s).sum % 2 ^ 64
unfolding accumulate observe
sum_small c [] s = omega arith
sum_small c (d ∷ cs) s = sum_small d cs (observe s c)

pub statistics-IsStatistics : (c : ℕ) (cs : List ℕ) → IsStatistics (c ∷ cs) (statistics c cs)
unfolding statistics
statistics-IsStatistics c cs =
    let s : Statistics = record { min = c; max = c; sum = 0 } in
    record {
      enclosed = encloses (c ∷ cs) s;
      least = elim (least_from (c ∷ cs) s) [ inl e ↦ inl (sym e) | inr a ↦ a ];
      greatest = elim (greatest_from (c ∷ cs) s) [ inl e ↦ inl (sym e) | inr a ↦ a ];
      summed = sum_small c cs s ∙ sums (c ∷ cs) s ∙ omega arith;
    }
