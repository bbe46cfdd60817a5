-- ===== src/SleepWake/Processes/Child/Account.antt =====
-- sleep_wake_process.c: how long a sleeping process takes, and what its figures add up to.
use native.Mathlib.Decide.{dec_lt}
use microkernel_benchmark.Prelude.{
  ℕ, zero, suc, ◌+◌, ◌*◌, ◌≤◌, ◌<◌, ◌≡◌, refl, subst, ap, ◌∙◌, arith, some, Bool, true, false,
  if◌then◌else◌,
}
use microkernel_benchmark.Prelude.Int.{ℤ, pos, sub_ℕ, ltb_ℤ}
use microkernel_benchmark.Timespec.{Timespec, nanos, nsec_per_sec}
use microkernel_benchmark.Timespec.Laws.{difference}
use microkernel_benchmark.SleepWake.{sleep_interval_ns, Sleep, SleepData, fresh, record_sleep}
use microkernel_benchmark.SleepWake.Lateness.{
  lateness, total_lateness, summed, summed_eq, record_sleep-summed,
}
use microkernel_benchmark.SleepWake.Processes.Child.{
  Clock, exit_success, test_duration, is_over, rounds, sleep_proc_function,
}

abbrev pub test_ns : ℕ
test_ns = test_duration * nsec_per_sec

pub record Readings : Type 0 where
  pub test_start : Timespec
  pub before : ℕ → Timespec
  pub after : ℕ → Timespec
  pub now : ℕ → Timespec

-- No reading of the clock fails, the clock does not go back, and no sleep is shorter than asked for,
-- as nanosleep promises when no signal interrupts it.
pub record IsSteady (clock : Clock) (r : Readings) : Type 0 where
  pub started : clock.test_start ≡ some r.test_start
  pub before : (k : ℕ) → clock.before k ≡ some (r.before k)
  pub after : (k : ℕ) → clock.after k ≡ some (r.after k)
  pub now : (k : ℕ) → clock.now k ≡ some (r.now k)
  pub first : nanos r.test_start ≤ nanos (r.before 0)
  pub slept : (k : ℕ) → nanos (r.before k) + sleep_interval_ns ≤ nanos (r.after k)
  pub looked : (k : ℕ) → nanos (r.after k) ≤ nanos (r.now k)
  pub next : (k : ℕ) → nanos (r.now k) ≤ nanos (r.before (k + 1))

abbrev pub sleep_of : Readings → ℕ → Sleep
sleep_of r k = record { before = r.before k; after = r.after k }

-- What `total` nanoseconds of jitter and a last round say of a process that has ended: it stopped at
-- the first look that found five seconds past, and its sleeps, each with the 10 ms asked for, fit into
-- the time up to that look.
pub record Accounts (r : Readings) (total last : ℕ) : Type 0 where
  pub few : last < 500
  pub over : nanos r.test_start + test_ns ≤ nanos (r.now last)
  pub earlier : (j : ℕ) → j < last → nanos (r.now j) < nanos r.test_start + test_ns
  pub fits : nanos r.test_start + total + (last + 1) * sleep_interval_ns ≤ nanos (r.now last)

over_test : ℤ → Bool
over_test elapsed = if ltb_ℤ elapsed (pos test_ns) then false else true

is_over-difference :
    (now start : Timespec) → is_over now start ≡ over_test (sub_ℕ (nanos now) (nanos start))
unfolding is_over over_test
is_over-difference now start = ap over_test (difference now start)

over_test_yes : (a b : ℕ) → b + test_ns ≤ a → over_test (sub_ℕ a b) ≡ true
unfolding over_test
over_test_yes a b h = ground arith

over_test_no : (a b : ℕ) → a < b + test_ns → over_test (sub_ℕ a b) ≡ false
unfolding over_test
over_test_no a b h = ground arith

module _ (clock : Clock) (r : Readings) (steady : IsSteady clock r) where
  round_ends :
      (fuel k : ℕ) (d : SleepData)
      → nanos r.test_start + test_ns ≤ nanos (r.now k)
      → rounds clock r.test_start (suc fuel) k d ≡ exit_success (record_sleep d (sleep_of r k))
  unfolding rounds
  round_ends fuel k d h =
      let e = is_over-difference (r.now k) r.test_start ∙ over_test_yes _ _ h in
      rw (rounds, steady.before k, steady.after k, steady.now k, e) refl

  round_goes_on :
      (fuel k : ℕ) (d : SleepData)
      → nanos (r.now k) < nanos r.test_start + test_ns
      → rounds clock r.test_start (suc fuel) k d
        ≡ rounds clock r.test_start fuel (k + 1) (record_sleep d (sleep_of r k))
  unfolding rounds
  round_goes_on fuel k d h =
      let e = is_over-difference (r.now k) r.test_start ∙ over_test_no _ _ h in
      rw (rounds, steady.before k, steady.after k, steady.now k, e) refl

  -- Before round `k`.
  rounds-Accounts :
      (id fuel k total : ℕ)
      → k < 500
      → 500 ≤ k + fuel
      → ((j : ℕ) → j < k → nanos (r.now j) < nanos r.test_start + test_ns)
      → nanos r.test_start + total + k * sleep_interval_ns ≤ nanos (r.before k)
      → (t : ℕ) × (m : ℕ) × (rounds clock r.test_start fuel k (summed id total k)
          ≡ exit_success (summed id t (k + m + 1)))
        × (t ≡ total + total_lateness (sleep_of r) (suc m) k)
        × ((last : ℕ) → last ≡ k + m → Accounts r t last)
  rounds-Accounts id zero k total lt enough early fits = absurd (omega arith)
  rounds-Accounts id (suc fuel) k total lt enough early fits =
      let recorded = record_sleep-summed id total k (sleep_of r k) in
      let through : nanos r.test_start
            + (total + lateness (sleep_of r k))
            + (k + 1) * sleep_interval_ns
          ≤ nanos (r.now k) =
        omega (arith, steady.slept k, steady.looked k) in
      elim (dec_lt (nanos (r.now k)) (nanos r.test_start + test_ns)) [
        | yes soon ↦
            let (t, m, e, sum, accounts) =
              rounds-Accounts id fuel (k + 1) (total + lateness (sleep_of r k)) (omega arith)
                (omega arith)
                (λ j j_lt. elim (dec_lt j k) [
                  | yes before ↦ early j before
                  | no later ↦ let same : k ≡ j = omega arith in ground arith
                ])
                (omega (arith, steady.next k)) in
            (
              t,
              suc m,
              round_goes_on fuel k _ soon
                  ∙ ap (rounds clock r.test_start fuel (k + 1)) recorded
                  ∙ e
                  ∙ ap (λ n. exit_success (summed id t n)) (omega arith),
              omega arith,
              λ last same. accounts last (omega arith),
            )
        | no late ↦ (
          total + lateness (sleep_of r k),
          zero,
          round_ends fuel k _ (omega arith)
              ∙ ap exit_success recorded
              ∙ ap (λ n. exit_success (summed id (total + lateness (sleep_of r k)) n))
                  (omega arith),
          omega arith,
          λ last same.
              let here : k ≡ last = omega arith in
              subst (Accounts r _) here
                (record { few = lt; over = omega arith; earlier = early; fits = through }),
        )
      ]

started :
    (clock : Clock) (r : Readings) (fuel id : ℕ)
    → IsSteady clock r
    → sleep_proc_function clock fuel id ≡ rounds clock r.test_start fuel 0 (fresh id)
unfolding sleep_proc_function
started clock r fuel id steady = rw (sleep_proc_function, steady.started) refl

-- If no reading of the clock fails, the clock does not go back, and no sleep is shorter than 10 ms,
-- then with fuel for 500 rounds the process ends and writes its figures: its sleeps are those up to
-- the first look that finds five seconds past, 500 at most, their jitter is the sum of the time that
-- each took beyond 10 ms, and it makes with 10 ms for each no more than the time between the start of
-- the process and that look.
pub sleep_proc_function-Accounts :
    (clock : Clock) (r : Readings) (fuel id : ℕ)
    → IsSteady clock r
    → 500 ≤ fuel
    → (last : ℕ) × (sleep_proc_function clock fuel id
        ≡ exit_success (summed id (total_lateness (sleep_of r) (suc last) 0) (suc last)))
      × Accounts r (total_lateness (sleep_of r) (suc last) 0) last
sleep_proc_function-Accounts clock r fuel id steady enough =
    let (t, m, e, sum, accounts) =
      rounds-Accounts clock r steady id fuel 0 0 (omega arith) (omega arith)
        (λ j lt. absurd (omega arith)) (omega (arith, steady.first)) in
    let total : t ≡ total_lateness (sleep_of r) (suc m) 0 = omega (arith, sum) in
    (
      m,
      started clock r fuel id steady ∙ e ∙ ap exit_success (summed_eq total (omega arith)),
      subst (λ t. Accounts r t m) total (accounts m (omega arith)),
    )
