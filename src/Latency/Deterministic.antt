-- ===== src/Latency/Deterministic.antt =====
-- scheduling/latency/deterministic_latency.c: the measuring thread and its set-up.
use microkernel_benchmark.Prelude.{
  ℕ, zero, suc, ◌+◌, ◌/◌, ◌%◌, Option, none, some, String, List, [], ◌∷◌, Bool, true, false, leb,
  if◌then◌else◌,
}
use microkernel_benchmark.Prelude.Int.{ℤ, pos, ◌+ℤ◌, ◌-ℤ◌, ◌*ℤ◌, ltb_ℤ, abs}
use microkernel_benchmark.Prelude.Program.{Program, pure, die, require, warn_unless, ◌>>=◌, ◌>>◌}
use microkernel_benchmark.Timespec.{Timespec, nsec_per_sec}
use microkernel_benchmark.Policy.{
  Platform, linux, qnx, Policy, parse_policy, Param, measuring_param, Host,
}
use microkernel_benchmark.Latency.{Wake, period_ns, iterations}

abbrev pub load_threads : ℕ
load_threads = 3

unfoldable pub advance : Timespec → Timespec
advance next =
    let nsec = next.tv_nsec + period_ns in
    if leb nsec_per_sec nsec
    then record { tv_sec = next.tv_sec + nsec / nsec_per_sec; tv_nsec = nsec % nsec_per_sec }
    else record { tv_sec = next.tv_sec; tv_nsec = nsec }

unfoldable pub observe : Timespec → Timespec → ℤ → ℤ
observe now next max_latency =
    let dsec = pos now.tv_sec -ℤ pos next.tv_sec in
    let dnsec = pos now.tv_nsec -ℤ pos next.tv_nsec in
    let latency = abs (dsec *ℤ pos nsec_per_sec +ℤ dnsec) in
    if ltb_ℤ max_latency latency then latency else max_latency

-- The loop of `rt_thread` with `n` rounds to go, in round `i`. On QNX a refused TimerTimeout ends
-- it; on Linux the result of the sleep is not looked at.
unfoldable pub rounds : Platform → (ℕ → Wake) → ℕ → ℕ → Timespec → ℤ → Program ℤ
unfolding advance observe
rounds platform wakes zero i next max_latency = pure max_latency
rounds platform wakes (suc n) i next max_latency =
    let next' = advance next in
    let rest = rounds platform wakes n (i + 1) next' (observe (wakes i).now next' max_latency) in
    let stop : Program ℤ = warn_unless false "TimerTimeout" >> pure max_latency in
    elim platform [ linux ↦ rest | qnx ↦ if (wakes i).slept then rest else stop ]

unfoldable pub rt_thread : Platform → Timespec → (ℕ → Wake) → Program ℤ
rt_thread platform start wakes = rounds platform wakes iterations 0 start (pos 0)

-- A load thread: `running k` is what its look number `k` at the flag finds, and each look that finds it set
-- is followed by a pass that keeps the processor busy. The number of passes, or `none` for a thread that
-- is still running.
unfoldable pub load_thread : (ℕ → Bool) → ℕ → ℕ → Option ℕ
load_thread running zero k = none
load_thread running (suc fuel) k = elim (running k) [
  | true ↦ load_thread running fuel (k + 1)
  | false ↦ some k
]

-- `main`: `create_rt` answers the creation of the measuring thread, and `host.create_thread i` that
-- of load thread `i`. The threads that load the CPUs have no result.
unfoldable pub create_loaders : Host → ℕ → ℕ → Program (Unit {0})
create_loaders host zero i = pure tt
create_loaders host (suc n) i = do
  require (host.create_thread i) "pthread_create load"
  create_loaders host n (i + 1)

unfoldable pub parse_sched_policy : Platform → String → Program Policy
unfolding parse_policy
parse_sched_policy platform =
    parse_policy platform "Unknown or unsupported policy: " "Unknown or unsupported policy: "

unfoldable pub main :
    Host → (Policy → Param → Bool) → Timespec → (ℕ → Wake) → List String → Program ℤ
unfolding parse_sched_policy create_loaders
main host create_rt start wakes [] = die "Usage: "
main host create_rt start wakes (arg ∷ _) = do
  policy ← parse_sched_policy host.platform arg
  create_loaders host load_threads 0
  require (create_rt policy (measuring_param host.platform policy (pos 80))) "pthread_create rt"
  rt_thread host.platform start wakes
