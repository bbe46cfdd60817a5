-- ===== src/Mosquitto/Summary/Facts.antt =====
-- What the summary of a run says of the latencies.
use mathlib.Core.List.{Perm}
use mathlib.Core.List.Permᴰ.{Permᴰ, nil, cons, swap, trans}
use mathlib.Core.Logic.{∥∥₁_elim}
use native.Mathlib.Nat.{ℕ_set}
use microkernel_benchmark.Prelude.{
  All, Any, ℕ, ◌+◌, ◌≡◌, ◌⊎◌, inl, inr, refl, arith, List, [], ◌∷◌, length, ◌∙◌,
}
use microkernel_benchmark.Prelude.Int.{
  ℤ, pos, sub_ℕ, pos_part, neg_part, ◌-ℤ◌, ◌≤ℤ◌, +ℤ_parts, -ℤ_parts, eq_of_parts,
}
use microkernel_benchmark.Mosquitto.Summary.{Summary, start, llong_max, observe, summarise}

pub sum : List ℕ → ℕ
sum [] = 0
sum (x ∷ xs) = x + sum xs

sum-permᴰ : {xs ys : List ℕ} → Permᴰ xs ys → sum xs ≡ sum ys
unfolding sum
sum-permᴰ nil = refl
sum-permᴰ (cons e p) = omega (arith, sum-permᴰ p)
sum-permᴰ (swap e f) = omega arith
sum-permᴰ (trans p q) = sum-permᴰ p ∙ sum-permᴰ q

sum-perm : {xs ys : List ℕ} → Perm xs ys → sum xs ≡ sum ys
sum-perm p = ∥∥₁_elim p (ℕ_set _ _) sum-permᴰ

total-sub :
    (recvs sends : List ℕ) (s : Summary)
    → length recvs ≡ length sends
    → pos_part (summarise recvs sends s).total + neg_part s.total + sum sends
      ≡ neg_part (summarise recvs sends s).total + pos_part s.total + sum recvs
unfolding summarise sum
total-sub [] [] s h = omega arith
total-sub [] (t ∷ sends) s h = absurd (omega arith)
total-sub (r ∷ recvs) [] s h = absurd (omega arith)
total-sub (r ∷ recvs) (t ∷ sends) s h = omega (
  arith,
  total-sub recvs sends (observe s (pos r -ℤ pos t)),
  +ℤ_parts s.total (pos r -ℤ pos t),
  -ℤ_parts (pos r) (pos t),
)

-- The latencies of a run, in the order of the loop.
abbrev pub latencies : List ℕ → List ℕ → List ℤ
latencies [] sends = []
latencies (r ∷ recvs) [] = []
latencies (r ∷ recvs) (t ∷ sends) = (pos r -ℤ pos t) ∷ latencies recvs sends

-- Between the extremes.
abbrev pub Between : ℤ → ℤ → ℤ → Type 0
Between lo hi d = (lo ≤ℤ d) × (d ≤ℤ hi)

observe_extremes :
    (s : Summary) (d : ℤ)
    → ((observe s d).min ≤ℤ s.min)
      × ((observe s d).min ≤ℤ d)
      × (s.max ≤ℤ (observe s d).max)
      × (d ≤ℤ (observe s d).max)
unfolding observe
observe_extremes s d = (ground arith, ground arith, ground arith, ground arith)

observe_attained :
    (s : Summary) (d : ℤ)
    → (((observe s d).min ≡ s.min) ⊎ ((observe s d).min ≡ d))
      × (((observe s d).max ≡ s.max) ⊎ ((observe s d).max ≡ d))
unfolding observe
observe_attained s d = (ground arith, ground arith)

extremes :
    (recvs sends : List ℕ) (s : Summary)
    → ((summarise recvs sends s).min ≤ℤ s.min)
      × (s.max ≤ℤ (summarise recvs sends s).max)
      × All
          (Between (summarise recvs sends s).min (summarise recvs sends s).max)
          (latencies recvs sends)
unfolding summarise
extremes [] sends s = (omega arith, omega arith, tt)
extremes (r ∷ recvs) [] s = (omega arith, omega arith, tt)
extremes (r ∷ recvs) (t ∷ sends) s =
    let d = pos r -ℤ pos t in
    let (low, high, rest) = extremes recvs sends (observe s d) in
    let (below_s, below_d, above_s, above_d) = observe_extremes s d in
    (omega arith, omega arith, ((omega arith, omega arith), rest))

-- A value that a loop started from, or that it met.
abbrev pub FromOr : ℤ → List ℤ → ℤ → Type 0
FromOr from ds v = (v ≡ from) ⊎ Any (λ d. v ≡ d) ds

FromOr-cons :
    (from from' d v : ℤ) (ds : List ℤ)
    → (from' ≡ from) ⊎ (from' ≡ d)
    → FromOr from' ds v
    → FromOr from (d ∷ ds) v
FromOr-cons from from' d v ds (inl same) (inl e) = inl (e ∙ same)
FromOr-cons from from' d v ds (inr new) (inl e) = inr (inl (e ∙ new))
FromOr-cons from from' d v ds how (inr met) = inr (inr met)

attained :
    (recvs sends : List ℕ) (s : Summary)
    → FromOr s.min (latencies recvs sends) (summarise recvs sends s).min
      × FromOr s.max (latencies recvs sends) (summarise recvs sends s).max
unfolding summarise
attained [] sends s = (inl refl, inl refl)
attained (r ∷ recvs) [] s = (inl refl, inl refl)
attained (r ∷ recvs) (t ∷ sends) s =
    let d = pos r -ℤ pos t in
    let (low, high) = attained recvs sends (observe s d) in
    let (low_from, high_from) = observe_attained s d in
    (FromOr-cons s.min _ d _ _ low_from low, FromOr-cons s.max _ d _ _ high_from high)

-- The reported extremes enclose every latency of the run, and each is a latency of the run or what
-- the loop started from: LLONG_MAX for the least, 0 for the greatest.
pub summarise-extremes :
    (recvs sends : List ℕ)
    → All
        (Between (summarise recvs sends start).min (summarise recvs sends start).max)
        (latencies recvs sends)
      × FromOr llong_max (latencies recvs sends) (summarise recvs sends start).min
      × FromOr (pos 0) (latencies recvs sends) (summarise recvs sends start).max
summarise-extremes recvs sends =
    let (low, high) = attained recvs sends start in ((extremes recvs sends start).2, low, high)

-- The total is the sum of the times of arrival less the sum of the times of sending. So the average
-- latency does not depend on the order in which the messages come back.
pub total-perm :
    {recvs recvs' : List ℕ} (sends : List ℕ)
    → length recvs ≡ length sends
    → length recvs' ≡ length sends
    → Perm recvs recvs'
    → ((summarise recvs sends start).total ≡ sub_ℕ (sum recvs) (sum sends))
      × ((summarise recvs' sends start).total ≡ (summarise recvs sends start).total)
total-perm {recvs} {recvs'} sends h h' p = (
  eq_of_parts _ _ (ground (arith, total-sub recvs sends start h)),
  eq_of_parts _ _
      (omega (arith, total-sub recvs sends start h, total-sub recvs' sends start h', sum-perm p)),
)
