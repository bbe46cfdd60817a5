-- ===== src/Latency/Tests.antt =====
-- Runs of scheduling/latency on small inputs, and instances of its theorems.
use microkernel_benchmark.Prelude.{
  ℕ, ◌+◌, ◌*◌, ◌≤◌, ◌≡◌, refl, arith, true, ltb, if◌then◌else◌, [], ◌∷◌,
}
use microkernel_benchmark.Prelude.Int.{pos, negsuc, ◌+ℤ◌, ◌-ℤ◌, ◌*ℤ◌}
use microkernel_benchmark.Prelude.Program.{finished, failed}
use microkernel_benchmark.Timespec.{Timespec, nanos, IsNormal, timespec_add, timespec_diff_ns}
use microkernel_benchmark.Policy.{linux, qnx, Host}
use microkernel_benchmark.Latency.{Wake, period_ns, iterations}
use microkernel_benchmark.Latency.MaxLatency
use microkernel_benchmark.Latency.Jitter
use microkernel_benchmark.Latency.Jitter.{Session}
use microkernel_benchmark.Latency.Deterministic
use microkernel_benchmark.Latency.Worst.{deviation, IsWorst, IsFirstFailure}
use microkernel_benchmark.Latency.Reports.{
  max_latency_ready, jitter_ready, RoundsMade, max_latency-IsWorst, measure_once-IsWorst,
  rt_thread-IsWorst, jitter-average_bounds,
}
use microkernel_benchmark.Latency.Deadlines.{advance-agree}

abbrev granting : Host
granting = record {
  platform = linux;
  prio_max = λ _. pos 99;
  set_scheduler = λ _ _. true;
  set_affinity = λ _. true;
  set_rlimit_as = λ _. true;
  create_thread = λ _. true;
}

abbrev five_seconds : Timespec
five_seconds = record { tv_sec = 5; tv_nsec = 999_500_000 }

-- The sleep fails in round 3, and the clock is 250 µs late in each round.
abbrev late : ℕ → Wake
late k = record { slept = ltb k 3; now = timespec_add five_seconds ((k + 1) * period_ns + 250_000) }

abbrev session : Session
session = record {
  start = five_seconds;
  wakes = λ k. record { slept = ltb k 3; now = five_seconds };
}

diff_runs :
    timespec_diff_ns (record { tv_sec = 3; tv_nsec = 1 }) (record { tv_sec = 4; tv_nsec = 3 })
    ≡ negsuc 1_000_000_001
unfolding timespec_diff_ns ◌+ℤ◌ ◌-ℤ◌ ◌*ℤ◌
diff_runs = refl

add_carries : timespec_add five_seconds period_ns ≡ record { tv_sec = 6; tv_nsec = 500_000 }
unfolding timespec_add
add_carries = refl

-- Three rounds are late by 1, 2 and 3 ms, the fourth sleep fails.
three_rounds : (Jitter.rounds session.wakes 10 0 five_seconds 0).result ≡ finished 3_000_000
unfolding Jitter.rounds
three_rounds = refl

usage : (MaxLatency.main granting five_seconds late []).result ≡ failed
unfolding MaxLatency.main
usage = refl

max_latency-IsWorst_example :
    (w : ℕ) × IsWorst (deviation five_seconds late) iterations w
    × ((MaxLatency.main granting five_seconds late ("fifo" ∷ [])).result
        ≡ (if max_latency_ready granting ("fifo" ∷ []) then finished (pos w) else failed))
max_latency-IsWorst_example = max_latency-IsWorst granting five_seconds late ("fifo" ∷ [])

measure_once-IsWorst_example :
    (k w : ℕ) × IsFirstFailure (λ i. (session.wakes i).slept) iterations k
    × IsWorst (deviation five_seconds session.wakes) k w
    × ((Jitter.measure_once session).result ≡ finished w)
measure_once-IsWorst_example = measure_once-IsWorst session (omega arith) (λ k. omega arith)

rt_thread-IsWorst_example :
    (k w : ℕ) × RoundsMade qnx late k
    × IsWorst (deviation five_seconds late) k w
    × ((Deterministic.rt_thread qnx five_seconds late).result ≡ finished (pos w))
rt_thread-IsWorst_example = rt_thread-IsWorst qnx five_seconds late

advance-agree_example :
    (timespec_add five_seconds period_ns ≡ Jitter.advance five_seconds)
    × (Deterministic.advance five_seconds ≡ Jitter.advance five_seconds)
    × (nanos (Jitter.advance five_seconds) ≡ nanos five_seconds + period_ns)
    × IsNormal (Jitter.advance five_seconds)
advance-agree_example = advance-agree five_seconds (omega arith)

-- Every sleep fails at once, so every run's maximum is 0.
abbrev idle : ℕ → Session
idle r = record {
  start = five_seconds;
  wakes = λ k. record { slept = ltb k 0; now = five_seconds };
}

idle_run : (r : ℕ) → (Jitter.measure_once (idle r)).result ≡ finished 0
unfolding Jitter.measure_once Jitter.rounds
idle_run r = refl

jitter-average_bounds_example :
    (avg : ℕ) × (0 ≤ avg)
    × (avg ≤ 7)
    × ((Jitter.main granting idle ("rr" ∷ [])).result
        ≡ (if jitter_ready granting ("rr" ∷ []) then finished avg else failed))
jitter-average_bounds_example =
    jitter-average_bounds granting idle (λ _. 0) 0 7 ("rr" ∷ []) idle_run (λ _. omega arith)
      (λ _. omega arith) (omega arith)
