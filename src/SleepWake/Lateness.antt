-- ===== src/SleepWake/Lateness.antt =====
-- What the sleeping loops add up.
use microkernel_benchmark.Prelude.{
  ℕ, zero, suc, ◌+◌, ◌-◌, ◌<◌, ◌≡◌, refl, ◌∙◌, ap, arith, some, List, [], ◌∷◌, Bool, true, false,
  length, if◌then◌else◌,
}
use microkernel_benchmark.Prelude.Int.{ℤ, pos, sub_ℕ, ltb_ℤ, ◌+ℤ◌, ◌-ℤ◌}
use microkernel_benchmark.Timespec.{nanos}
use microkernel_benchmark.Timespec.Laws.{difference}
use microkernel_benchmark.SleepWake.{
  sleep_interval_ns, Sleep, SleepData, jitter, record_sleep, fresh, sleep_loop, thread_loop,
}

-- The nanoseconds by which a sleep was longer than asked for, in subtraction that stops at 0.
abbrev pub lateness : Sleep → ℕ
lateness s = nanos s.after - nanos s.before - sleep_interval_ns

late : ℤ → ℤ
late elapsed = let l = elapsed -ℤ pos sleep_interval_ns in if ltb_ℤ l (pos 0) then pos 0 else l

late-sub_ℕ : (a b : ℕ) → late (sub_ℕ a b) ≡ pos (a - b - sleep_interval_ns)
unfolding late ◌-ℤ◌
late-sub_ℕ a b = ground arith

jitter-lateness : (s : Sleep) → jitter s ≡ pos (lateness s)
unfolding jitter late
jitter-lateness s =
    ap late (difference s.after s.before) ∙ late-sub_ℕ (nanos s.after) (nanos s.before)

-- The lateness of `n` sleeps from number `k` on.
abbrev pub total_lateness : (ℕ → Sleep) → ℕ → ℕ → ℕ
total_lateness sleeps zero k = 0
total_lateness sleeps (suc n) k = lateness (sleeps k) + total_lateness sleeps n (k + 1)

abbrev pub summed : ℕ → ℕ → ℕ → SleepData
summed id total n = record { id = id; total_jitter_ns = pos total; iterations = n }

pub record_sleep-summed :
    (id total n : ℕ) (s : Sleep)
    → record_sleep (summed id total n) s ≡ summed id (total + lateness s) (n + 1)
unfolding record_sleep ◌+ℤ◌
record_sleep-summed id total n s = rw (jitter-lateness s) (ground arith)

pub summed_eq :
    {id total total' n n' : ℕ} → total ≡ total' → n ≡ n' → summed id total n ≡ summed id total' n'
summed_eq {id} t m i = summed id (t i) (m i)

sleep_loop_ends :
    (sleeps : ℕ → Sleep) (expired : ℕ → Bool) (fuel k : ℕ) (d : SleepData)
    → expired k ≡ true
    → sleep_loop sleeps expired (suc fuel) k d ≡ some (record_sleep d (sleeps k))
unfolding sleep_loop
sleep_loop_ends sleeps expired fuel k d e = rw (sleep_loop, e)

sleep_loop_goes_on :
    (sleeps : ℕ → Sleep) (expired : ℕ → Bool) (fuel k : ℕ) (d : SleepData)
    → expired k ≡ false
    → sleep_loop sleeps expired (suc fuel) k d
      ≡ sleep_loop sleeps expired fuel (k + 1) (record_sleep d (sleeps k))
unfolding sleep_loop
sleep_loop_goes_on sleeps expired fuel k d e = rw (sleep_loop, e)

sleep_loop-summed :
    (sleeps : ℕ → Sleep) (expired : ℕ → Bool) (id n fuel k total iterations : ℕ)
    → ((i : ℕ) → i < k + n → expired i ≡ false)
    → expired (k + n) ≡ true
    → n < fuel
    → sleep_loop sleeps expired fuel k (summed id total iterations)
      ≡ some (summed id (total + total_lateness sleeps (suc n) k) (iterations + suc n))
sleep_loop-summed sleeps expired id n zero k total iterations before over enough =
    absurd (omega arith)
sleep_loop-summed sleeps expired id zero (suc fuel) k total iterations before over enough =
    sleep_loop_ends sleeps expired fuel k _ (ap expired (omega arith) ∙ over)
    ∙ ap some (record_sleep-summed id total iterations (sleeps k) ∙ summed_eq (omega arith) refl)
sleep_loop-summed sleeps expired id (suc n) (suc fuel) k total iterations before over enough =
    sleep_loop_goes_on sleeps expired fuel k _ (before k (omega arith))
    ∙ ap (sleep_loop sleeps expired fuel (k + 1))
        (record_sleep-summed id total iterations (sleeps k))
    ∙ sleep_loop-summed sleeps expired id n fuel (k + 1) _ _ (λ i lt. before i (omega arith))
        (ap expired (omega arith) ∙ over) (omega arith)
    ∙ ap some (summed_eq (omega arith) (omega arith))

-- If the n-th look at the clock (from 0) is the first to find the test over, the loop of a sleeping
-- process ends with n + 1 sleeps, and its jitter is the sum of the time that each sleep took beyond
-- 10 ms, where an early sleep counts as 0.
pub sleep_loop-total :
    (sleeps : ℕ → Sleep) (expired : ℕ → Bool) (id n fuel : ℕ)
    → ((i : ℕ) → i < n → expired i ≡ false)
    → expired n ≡ true
    → n < fuel
    → sleep_loop sleeps expired fuel 0 (fresh id)
      ≡ some (record {
        id = id;
        total_jitter_ns = pos (total_lateness sleeps (suc n) 0);
        iterations = suc n;
      })
sleep_loop-total sleeps expired id n fuel before over enough =
    sleep_loop-summed sleeps expired id n fuel 0 0 0 (λ i lt. before i (omega arith))
      (ap expired (omega arith) ∙ over) enough
    ∙ ap some (summed_eq (omega arith) (omega arith))

abbrev pub list_lateness : List Sleep → ℕ
list_lateness [] = 0
list_lateness (s ∷ sleeps) = lateness s + list_lateness sleeps

thread_loop-summed :
    (sleeps : List Sleep) (id total n : ℕ)
    → thread_loop sleeps (summed id total n)
      ≡ summed id (total + list_lateness sleeps) (n + length sleeps)
unfolding thread_loop
thread_loop-summed [] id total n = summed_eq (omega arith) (omega arith)
thread_loop-summed (s ∷ sleeps) id total n =
    ap (thread_loop sleeps) (record_sleep-summed id total n s)
    ∙ thread_loop-summed sleeps id (total + lateness s) (n + 1)
    ∙ summed_eq (omega arith) (omega arith)

-- However many sleeps a thread makes before it sees the stop flag: it counts them all, and its
-- jitter is the sum of the time that each took beyond 10 ms, where an early sleep counts as 0.
pub thread_loop-total :
    (sleeps : List Sleep) (id : ℕ)
    → thread_loop sleeps (fresh id)
      ≡ record { id = id; total_jitter_ns = pos (list_lateness sleeps); iterations = length sleeps }
thread_loop-total sleeps id =
    thread_loop-summed sleeps id 0 0 ∙ summed_eq (omega arith) (omega arith)
