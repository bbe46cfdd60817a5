-- ===== src/Latency/Worst.antt =====
-- What the three measuring loops are held to: the greatest of the deviations of their rounds, and
-- the rounds before the first failure.
use microkernel_benchmark.Prelude.{
  ℕ, zero, suc, ◌+◌, ◌-◌, ◌*◌, ◌≤◌, ◌<◌, ◌≡◌, refl, ◌⊎◌, inl, inr, arith, Bool, true, false, ltb,
  if◌then◌else◌, Bool-cases,
}
use native.Mathlib.Decide.{ℕ_discrete}
use microkernel_benchmark.Timespec.{Timespec, nanos}
use microkernel_benchmark.Latency.{Wake, period_ns}

abbrev pub abs_diff : ℕ → ℕ → ℕ
abs_diff a b = if ltb a b then b - a else a - b

abbrev pub higher : ℕ → ℕ → ℕ
higher m d = if ltb m d then d else m

-- How far the wake-up of round `k` is from `k + 1` periods after the start.
abbrev pub deviation : Timespec → (ℕ → Wake) → ℕ → ℕ
deviation start wakes k = abs_diff (nanos (wakes k).now) (nanos start + (k + 1) * period_ns)

-- `w` bounds the first `n` values of `f` and is one of them, or 0.
pub record IsWorst (f : ℕ → ℕ) (n w : ℕ) : Type 0 where
  pub bound : (k : ℕ) → k < n → f k ≤ w
  pub attained : (w ≡ 0) ⊎ ((k : ℕ) × (k < n) × (w ≡ f k))

-- `k` rounds of `n` succeed, and the next one, if there is one, fails.
pub record IsFirstFailure (ok : ℕ → Bool) (n k : ℕ) : Type 0 where
  pub within : k ≤ n
  pub before : (j : ℕ) → j < k → ok j ≡ true
  pub failing : k < n → ok k ≡ false

-- The running maximum over the rounds `i` to `i + n - 1`.
unfoldable pub worst : (ℕ → ℕ) → ℕ → ℕ → ℕ → ℕ
worst f zero i m = m
worst f (suc n) i m = worst f n (i + 1) (higher m (f i))

worst-ge : (f : ℕ → ℕ) (n i m : ℕ) → m ≤ worst f n i m
unfolding worst
worst-ge f zero i m = omega arith
worst-ge f (suc n) i m = ground (arith, worst-ge f n (i + 1) (higher m (f i)))

worst_bound : (f : ℕ → ℕ) (n i m k : ℕ) → i ≤ k → k < i + n → f k ≤ worst f n i m
unfolding worst
worst_bound f zero i m k lo hi = absurd (omega arith)
worst_bound f (suc n) i m k lo hi = elim (ℕ_discrete i k) [
  | yes e ↦ rw (← e) (ground (arith, worst-ge f n (i + 1) (higher m (f i))))
  | no ne ↦ worst_bound f n (i + 1) (higher m (f i)) k (omega arith) (omega arith)
]

-- Where the maximum comes from, for rounds that start at `i`.
abbrev From : (ℕ → ℕ) → ℕ → ℕ → ℕ → ℕ → Type 0
From f n i m w = (w ≡ m) ⊎ ((k : ℕ) × (i ≤ k) × (k < i + n) × (w ≡ f k))

From-higher : (f : ℕ → ℕ) (n i m w : ℕ) → From f n (i + 1) (higher m (f i)) w → From f (suc n) i m w
From-higher f n i m w (inr (k, lo, hi, e)) = inr (k, omega arith, omega arith, e)
From-higher f n i m w (inl e) = elim (Bool-cases (ltb m (f i))) [
  | inl lt ↦ inr (i, omega arith, omega arith, rw lt at e)
  | inr ge ↦ inl (rw ge at e)
]

worst_attained : (f : ℕ → ℕ) (n i m : ℕ) → From f n i m (worst f n i m)
unfolding worst
worst_attained f zero i m = inl refl
worst_attained f (suc n) i m = From-higher f n i m _ (worst_attained f n (i + 1) (higher m (f i)))

pub worst-IsWorst : (f : ℕ → ℕ) (n : ℕ) → IsWorst f n (worst f n 0 0)
worst-IsWorst f n = record {
  bound = λ k lt. worst_bound f n 0 0 k (omega arith) (omega arith);
  attained = elim (worst_attained f n 0 0) [
    | inl e ↦ inl e
    | inr (k, lo, hi, e) ↦ inr (k, omega arith, e)
  ];
}

-- The number of successes before the first failure, in the rounds `i` to `i + n - 1`.
unfoldable pub run_length : (ℕ → Bool) → ℕ → ℕ → ℕ
run_length ok zero i = 0
run_length ok (suc n) i = if ok i then suc (run_length ok n (i + 1)) else 0

run_length-le : (ok : ℕ → Bool) (n i : ℕ) → run_length ok n i ≤ n
unfolding run_length
run_length-le ok zero i = omega arith
run_length-le ok (suc n) i = ground (arith, run_length-le ok n (i + 1))

run_length_before : (ok : ℕ → Bool) (n i j : ℕ) → i ≤ j → j < i + run_length ok n i → ok j ≡ true
unfolding run_length
run_length_before ok zero i j lo hi = absurd (omega arith)
run_length_before ok (suc n) i j lo hi = elim (ℕ_discrete i j) [
  | yes e ↦ rw (← e) (ground arith)
  | no ne ↦ ground (arith, run_length_before ok n (i + 1) j)
]

run_length_failing :
    (ok : ℕ → Bool) (n i j : ℕ) → run_length ok n i < n → i + run_length ok n i ≡ j → ok j ≡ false
unfolding run_length
run_length_failing ok zero i j h e = absurd (omega arith)
run_length_failing ok (suc n) i j h e = elim (Bool-cases (ok i)) [
  | inl good ↦ ground (arith, run_length_failing ok n (i + 1) j)
  | inr bad ↦ let here : i ≡ j = ground arith in rw (← here) bad
]

pub run_length-IsFirstFailure : (ok : ℕ → Bool) (n : ℕ) → IsFirstFailure ok n (run_length ok n 0)
run_length-IsFirstFailure ok n = record {
  within = run_length-le ok n 0;
  before = λ j lt. run_length_before ok n 0 j (omega arith) (omega arith);
  failing = λ lt. run_length_failing ok n 0 _ lt (omega arith);
}
