-- ===== src/Latency/Reports.antt =====
-- What the programs of scheduling/latency report, and when they give up.
use microkernel_benchmark.Prelude.{
  ℕ, zero, suc, ◌+◌, ◌*◌, ◌/◌, ◌%◌, ◌^◌, ◌≤◌, ◌<◌, ◌≡◌, refl, arith, Bool, false, if◌then◌else◌,
  List, [], ◌∷◌, String, ◌&&◌, ◌||◌, not, str_eq,
}
use microkernel_benchmark.Prelude.Int.{pos}
use microkernel_benchmark.Prelude.Program.{finished, failed}
use microkernel_benchmark.Timespec.{Timespec, nanos, timespec_add}
use microkernel_benchmark.Timespec.Laws.{nanos-timespec_add}
use microkernel_benchmark.Policy.{
  Platform, linux, qnx, on_qnx, fifo, rr, sporadic, plain, measuring_server, Host,
}
use microkernel_benchmark.Policy.Agreement.{
  accepts, Word, word, says_fifo, says_rr, says_sporadic, says_else,
}
use microkernel_benchmark.Latency.{Wake, period_ns, iterations}
use microkernel_benchmark.Latency.MaxLatency
use microkernel_benchmark.Latency.Jitter
use microkernel_benchmark.Latency.Deterministic
use microkernel_benchmark.Latency.Worst.{
  deviation, worst, run_length, IsWorst, IsFirstFailure, worst-IsWorst, run_length-IsFirstFailure,
}
use microkernel_benchmark.Latency.Results.{
  measure-worst, jitter_rounds-worst, det_rounds-worst, det_rounds-worst_qnx,
}

abbrev pub max_latency_ready : Host → List String → Bool
max_latency_ready host [] = false
max_latency_ready host (arg ∷ _) =
    accepts host.platform arg
    && (on_qnx host.platform || host.set_affinity 15 && host.set_rlimit_as (512 * 1024 * 1024))
    && (not (on_qnx host.platform && str_eq arg "sporadic")
        || host.set_scheduler sporadic (measuring_server (host.prio_max sporadic)))

max_latency_measure :
    (start : Timespec) (wakes : ℕ → Wake)
    → (MaxLatency.measure wakes iterations 0 (timespec_add start period_ns) (pos 0)).result
      ≡ finished (pos (worst (deviation start wakes) iterations 0 0))
max_latency_measure start wakes =
    measure-worst start wakes iterations 0 0 (timespec_add start period_ns)
      (omega (arith, nanos-timespec_add start period_ns))

module _ (host : Host) (start : Timespec) (wakes : ℕ → Wake) where
  max_latency_guarded :
      (arg : String) (rest : List String)
      → Word arg
      → (MaxLatency.main host start wakes (arg ∷ rest)).result ≡ (
          if max_latency_ready host (arg ∷ rest)
          then finished (pos (worst (deviation start wakes) iterations 0 0))
          else failed)
  unfolding MaxLatency.main
  max_latency_guarded arg rest (says_fifo e) =
      rw e (ground (arith, max_latency_measure start wakes))
  max_latency_guarded arg rest (says_rr e) = rw e (ground (arith, max_latency_measure start wakes))
  max_latency_guarded arg rest (says_sporadic e) =
      rw e (ground (arith, max_latency_measure start wakes))
  max_latency_guarded arg rest (says_else f r s) = rw (f, r, s)

  -- max_latency_scheduling.c: with a policy of the platform, and on Linux the affinity and the
  -- memory limit granted, on QNX a sporadic server granted if one is asked for, the program reports
  -- the worst of the 10000 deviations from deadlines that stand whole periods after the first
  -- reading of the clock; in every other case it fails, and it always does one or the other.
  pub max_latency-IsWorst :
      (args : List String)
      → (w : ℕ) × IsWorst (deviation start wakes) iterations w
        × ((MaxLatency.main host start wakes args).result
            ≡ (if max_latency_ready host args then finished (pos w) else failed))
  unfolding MaxLatency.main
  max_latency-IsWorst [] = (_, worst-IsWorst (deviation start wakes) iterations, refl)
  max_latency-IsWorst (arg ∷ rest) =
      (_, worst-IsWorst (deviation start wakes) iterations, max_latency_guarded arg rest (word arg))

-- measure_jitter.c: `measure_once` reports the worst deviation of the rounds before the first sleep
-- that fails, if the clock and the deadlines stay below 2^64 nanoseconds.
pub measure_once-IsWorst :
    (s : Jitter.Session)
    → nanos s.start + iterations * period_ns < 2 ^ 64
    → ((k : ℕ) → nanos (s.wakes k).now < 2 ^ 64)
    → (k w : ℕ) × IsFirstFailure (λ i. (s.wakes i).slept) iterations k
      × IsWorst (deviation s.start s.wakes) k w
      × ((Jitter.measure_once s).result ≡ finished w)
unfolding Jitter.measure_once
measure_once-IsWorst s fits clock = (
  run_length (λ i. (s.wakes i).slept) iterations 0,
  _,
  run_length-IsFirstFailure _ iterations,
  worst-IsWorst _ _,
  jitter_rounds-worst s.start s.wakes iterations 0 0 s.start (omega arith) (omega arith) clock,
)

abbrev pub RoundsMade : Platform → (ℕ → Wake) → ℕ → Type 0
RoundsMade linux wakes k = k ≡ iterations
RoundsMade qnx wakes k = IsFirstFailure (λ i. (wakes i).slept) iterations k

-- deterministic_latency.c: on Linux the measuring thread reports the worst deviation of all
-- rounds, on QNX that of the rounds before the first TimerTimeout that is refused.
pub rt_thread-IsWorst :
    (platform : Platform) (start : Timespec) (wakes : ℕ → Wake)
    → (k w : ℕ) × RoundsMade platform wakes k
      × IsWorst (deviation start wakes) k w
      × ((Deterministic.rt_thread platform start wakes).result ≡ finished (pos w))
unfolding Deterministic.rt_thread
rt_thread-IsWorst linux start wakes = (
  iterations,
  _,
  refl,
  worst-IsWorst (deviation start wakes) iterations,
  det_rounds-worst start wakes iterations 0 0 start (omega arith),
)
rt_thread-IsWorst qnx start wakes = (
  run_length (λ i. (wakes i).slept) iterations 0,
  _,
  run_length-IsFirstFailure _ iterations,
  worst-IsWorst _ _,
  det_rounds-worst_qnx start wakes iterations 0 0 start (omega arith),
)

-- The sum of `n` runs from run `r` on lies between `n` times the bounds of each run.
total_bounds :
    (sessions : ℕ → Jitter.Session) (maxima : ℕ → ℕ) (lo hi : ℕ)
    → ((r : ℕ) → (Jitter.measure_once (sessions r)).result ≡ finished (maxima r))
    → ((r : ℕ) → lo ≤ maxima r)
    → ((r : ℕ) → maxima r ≤ hi)
    → (n r sum : ℕ) → sum + n * hi < 2 ^ 64
    → (t : ℕ) × ((Jitter.total sessions n r sum).result ≡ finished t)
      × (sum + n * lo ≤ t)
      × (t ≤ sum + n * hi)
unfolding Jitter.total
total_bounds sessions maxima lo hi run low high zero r sum fits =
    (sum, refl, omega arith, omega arith)
total_bounds sessions maxima lo hi run low high (suc n) r sum fits =
    let w = maxima r in
    let (t, e, above, below) =
      total_bounds sessions maxima lo hi run low high n (r + 1) ((sum + w) % 2 ^ 64)
        (omega (arith, high r)) in
    (t, rw (run r) e, omega (arith, low r, high r), omega (arith, low r, high r))

abbrev pub jitter_ready : Host → List String → Bool
jitter_ready host [] = false
jitter_ready host (arg ∷ _) =
    if str_eq arg "fifo"
    then host.set_scheduler fifo (plain (host.prio_max fifo))
    else if str_eq arg "rr"
    then host.set_scheduler rr (plain (host.prio_max rr))
    else str_eq arg "sporadic"
      && on_qnx host.platform
      && host.set_scheduler sporadic (measuring_server (host.prio_max sporadic))

module _ (host : Host) (sessions : ℕ → Jitter.Session) {t : ℕ} where
  jitter_guarded :
      (arg : String) (rest : List String)
      → (Jitter.total sessions Jitter.runs 1 0).result ≡ finished t
      → Word arg
      → (Jitter.main host sessions (arg ∷ rest)).result
        ≡ (if jitter_ready host (arg ∷ rest) then finished (t / Jitter.runs) else failed)
  unfolding Jitter.main
  jitter_guarded arg rest e (says_fifo is) = rw is (ground arith)
  jitter_guarded arg rest e (says_rr is) = rw is (ground arith)
  jitter_guarded arg rest e (says_sporadic is) = rw is (ground arith)
  jitter_guarded arg rest e (says_else f r s) = rw (f, r, s)

-- measure_jitter.c: if every run's maximum lies between `lo` and `hi`, and 100 times `hi` fits in
-- 64 bits, so does the average that the program prints; it prints it exactly if the policy is one
-- of the platform and the scheduler grants it, and fails otherwise.
pub jitter-average_bounds :
    (host : Host) (sessions : ℕ → Jitter.Session) (maxima : ℕ → ℕ) (lo hi : ℕ) (args : List String)
    → ((r : ℕ) → (Jitter.measure_once (sessions r)).result ≡ finished (maxima r))
    → ((r : ℕ) → lo ≤ maxima r)
    → ((r : ℕ) → maxima r ≤ hi)
    → 100 * hi < 2 ^ 64
    → (avg : ℕ) × (lo ≤ avg)
      × (avg ≤ hi)
      × ((Jitter.main host sessions args).result
          ≡ (if jitter_ready host args then finished avg else failed))
unfolding Jitter.main
jitter-average_bounds host sessions maxima lo hi [] run low high fits =
    (lo, omega arith, omega (arith, low 0, high 0), refl)
jitter-average_bounds host sessions maxima lo hi (arg ∷ rest) run low high fits =
    let (t, e, above, below) =
      total_bounds sessions maxima lo hi run low high Jitter.runs 1 0 (omega arith) in
    (t / Jitter.runs, omega arith, omega arith, jitter_guarded host sessions arg rest e (word arg))
