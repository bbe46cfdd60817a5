-- ===== src/Latency/Jitter.antt =====
-- scheduling/latency/measure_jitter.c. The counters are uint64_t.
use microkernel_benchmark.Prelude.{
  ℕ, zero, suc, ◌+◌, ◌-◌, ◌*◌, ◌/◌, ◌%◌, ◌^◌, String, List, [], ◌∷◌, false, ◌&&◌, leb, ltb,
  if◌then◌else◌,
}
use microkernel_benchmark.Prelude.Program.{Program, pure, die, require, warn_unless, ◌>>=◌, ◌>>◌}
use microkernel_benchmark.Timespec.{Timespec, nsec_per_sec}
use microkernel_benchmark.Policy.{
  Platform, Policy, is_sporadic, on_qnx, parse_policy, plain, measuring_server, Host,
}
use microkernel_benchmark.Latency.{Wake, period_ns, iterations}

abbrev pub runs : ℕ
runs = 100

unfoldable pub ts_ns : Timespec → ℕ
ts_ns t = (t.tv_sec * nsec_per_sec + t.tv_nsec) % 2 ^ 64

-- One carry at most: the code subtracts a second where the other two programs divide.
unfoldable pub advance : Timespec → Timespec
advance expected =
    let nsec = expected.tv_nsec + period_ns in
    if leb nsec_per_sec nsec
    then record { tv_sec = expected.tv_sec + 1; tv_nsec = nsec - nsec_per_sec }
    else record { tv_sec = expected.tv_sec; tv_nsec = nsec }

unfoldable pub observe : Timespec → Timespec → ℕ → ℕ
unfolding ts_ns
observe now expected max_j =
    let a = ts_ns now in
    let b = ts_ns expected in
    let diff : ℕ = if ltb b a then a - b else b - a in if ltb max_j diff then diff else max_j

-- The loop of `measure_once` with `n` rounds to go, in round `i`: a failed sleep ends it.
unfoldable pub rounds : (ℕ → Wake) → ℕ → ℕ → Timespec → ℕ → Program ℕ
unfolding advance observe
rounds wakes zero i expected max_j = pure max_j
rounds wakes (suc n) i expected max_j =
    let expected' = advance expected in
    let rest = rounds wakes n (i + 1) expected' (observe (wakes i).now expected' max_j) in
    if (wakes i).slept then rest else (warn_unless false "clock_nanosleep" >> pure max_j)

-- What one run meets: the first reading of the clock, and its wake-ups.
pub record Session : Type 0 where
  pub start : Timespec
  pub wakes : ℕ → Wake

unfoldable pub measure_once : Session → Program ℕ
measure_once s = rounds s.wakes iterations 0 s.start 0

-- The loop over `runs` with `n` runs to go, in run `r`.
unfoldable pub total : (ℕ → Session) → ℕ → ℕ → ℕ → Program ℕ
total sessions zero r sum = pure sum
total sessions (suc n) r sum = do
  mj ← measure_once (sessions r)
  total sessions n (r + 1) ((sum + mj) % 2 ^ 64)

unfoldable pub parse_sched_policy : Platform → String → Program Policy
unfolding parse_policy
parse_sched_policy platform =
    parse_policy platform "Unsupported or unknown policy: " "Unsupported or unknown policy: "

unfoldable pub set_policy : Host → Policy → Program (Unit {0})
set_policy host policy =
    let prio = host.prio_max policy in
    if on_qnx host.platform && is_sporadic policy
    then require (host.set_scheduler policy (measuring_server prio))
        "pthread_setschedparam (sporadic)"
    else require (host.set_scheduler policy (plain prio)) "pthread_setschedparam"

-- The result of pthread_setaffinity_np is not looked at.
unfoldable pub main : Host → (ℕ → Session) → List String → Program ℕ
unfolding parse_sched_policy set_policy
main host sessions [] = die "Usage: "
main host sessions (arg ∷ _) = do
  policy ← parse_sched_policy host.platform arg
  set_policy host policy
  sum ← total sessions runs 1 0
  pure (sum / runs)
