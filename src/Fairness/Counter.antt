-- ===== src/Fairness/Counter.antt =====
-- How far a child counts.
use native.Mathlib.Decide.{dec_lt, ℕ_discrete}
use microkernel_benchmark.Prelude.{
  ℕ, zero, suc, ◌+◌, ◌*◌, ◌%◌, ◌^◌, ◌≤◌, ◌<◌, ◌≡◌, arith, some, Bool, true, false, ap, ◌∙◌,
}
use microkernel_benchmark.Fairness.{check_interval, count_up}

module _ (expired : ℕ → Bool) (k : ℕ) where
  -- An increment between two looks at the clock.
  between :
      (fuel j counter : ℕ)
      → (k + 1) * check_interval < 2 ^ 64
      → j ≤ k
      → j * check_interval ≤ counter
      → counter + 1 < (j + 1) * check_interval
      → count_up expired (suc fuel) j counter ≡ count_up expired fuel j (counter + 1)
  unfolding count_up
  between fuel j counter fits le lo hi =
      let same : (counter + 1) % 2 ^ 64 ≡ counter + 1 = omega arith in
      let off : (counter + 1) % check_interval ≡ 0 → ⊥ = λ e. omega arith in
      ground (arith, same, off)

  -- The increment that leads to a look.
  looking :
      (fuel j counter : ℕ) (b : Bool)
      → (k + 1) * check_interval < 2 ^ 64
      → j ≤ k
      → counter + 1 ≡ (j + 1) * check_interval
      → expired j ≡ b
      → count_up expired (suc fuel) j counter
        ≡ elim b [ true ↦ some (counter + 1) | false ↦ count_up expired fuel (j + 1) (counter + 1) ]
  unfolding count_up
  looking fuel j counter b fits le e now =
      let same : (counter + 1) % 2 ^ 64 ≡ counter + 1 = omega arith in
      let on : (counter + 1) % check_interval ≡ 0 = omega arith in ground (arith, same, on)

  counting :
      (fuel j counter : ℕ)
      → ((i : ℕ) → i < k → expired i ≡ false)
      → expired k ≡ true
      → (k + 1) * check_interval < 2 ^ 64
      → j ≤ k
      → j * check_interval ≤ counter
      → counter < (j + 1) * check_interval
      → (k + 1) * check_interval ≤ counter + fuel
      → count_up expired fuel j counter ≡ some ((k + 1) * check_interval)
  counting zero j counter before over fits le lo hi enough = absurd (omega arith)
  counting (suc fuel) j counter before over fits le lo hi enough =
      elim (dec_lt (counter + 1) ((j + 1) * check_interval)) [
        | yes lt ↦
            between fuel j counter fits le lo lt
            ∙ counting fuel j (counter + 1) before over fits le (omega arith) lt (omega arith)
        | no ge ↦ elim (ℕ_discrete j k) [
          | yes last ↦
              looking fuel j counter true fits le (omega arith) (ap expired last ∙ over)
              ∙ ap some (omega arith)
          | no ne ↦
              looking fuel j counter false fits le (omega arith) (before j (omega arith))
              ∙ counting fuel (j + 1) (counter + 1) before over fits (omega arith) (omega arith)
                  (omega arith) (omega arith)
        ]
      ]

-- With enough fuel the loop ends, with a counter of `k + 1` million, if the k-th look at the clock
-- (from 0) is the first to find the time over, and the counter does not wrap around before.
pub count_up-first :
    (expired : ℕ → Bool) (k fuel : ℕ)
    → ((i : ℕ) → i < k → expired i ≡ false)
    → expired k ≡ true
    → (k + 1) * check_interval < 2 ^ 64
    → (k + 1) * check_interval ≤ fuel
    → count_up expired fuel 0 0 ≡ some ((k + 1) * check_interval)
count_up-first expired k fuel before over fits enough =
    counting expired k fuel 0 0 before over fits (omega arith) (omega arith) (omega arith)
      (omega arith)
