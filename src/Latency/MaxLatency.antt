-- ===== src/Latency/MaxLatency.antt =====
-- scheduling/latency/max_latency_scheduling.c
use microkernel_benchmark.Prelude.{ℕ, zero, suc, ◌+◌, ◌*◌, String, List, [], ◌∷◌, if◌then◌else◌}
use microkernel_benchmark.Prelude.Int.{ℤ, pos, ◌-ℤ◌, ltb_ℤ}
use microkernel_benchmark.Prelude.Program.{Program, pure, die, require, warn_unless, ◌>>=◌, ◌>>◌}
use microkernel_benchmark.Timespec.{Timespec, timespec_add, timespec_diff_ns}
use microkernel_benchmark.Policy.{
  Platform, linux, qnx, Policy, is_sporadic, parse_policy, plain, measuring_server, Host,
}
use microkernel_benchmark.Latency.{Wake, period_ns, iterations}

unfoldable pub parse_sched_policy : Platform → String → Program Policy
unfolding parse_policy
parse_sched_policy platform =
    parse_policy platform "Unsupported or unknown policy: " "Unsupported or unknown policy: "

-- The absolute difference of one round against the maximum so far.
unfoldable pub observe : Timespec → Timespec → ℤ → ℤ
observe now next max_latency =
    let latency = timespec_diff_ns now next in
    let magnitude : ℤ = if ltb_ℤ latency (pos 0) then pos 0 -ℤ latency else latency in
    if ltb_ℤ max_latency magnitude then magnitude else max_latency

-- The loop with `n` rounds to go, in round `i`. A failed sleep is reported, and its round counts.
unfoldable pub measure : (ℕ → Wake) → ℕ → ℕ → Timespec → ℤ → Program ℤ
unfolding observe timespec_add
measure wakes zero i next max_latency = pure max_latency
measure wakes (suc n) i next max_latency = do
  warn_unless (wakes i).slept "clock_nanosleep"
  measure wakes n (i + 1) (timespec_add next period_ns) (observe (wakes i).now next max_latency)

-- Pinning to CPU 15 and the limit of 512 MB, on Linux alone.
unfoldable pub confine : Host → Program (Unit {0})
confine host = elim host.platform [
  | linux ↦ do
    require (host.set_affinity 15) "sched_setaffinity"
    require (host.set_rlimit_as (512 * 1024 * 1024)) "setrlimit"
  | qnx ↦ pure tt
]

-- A plain policy that is refused is passed over, a sporadic one is not.
unfoldable pub set_policy : Host → Policy → Program (Unit {0})
set_policy host policy =
    let prio = host.prio_max policy in
    let refused : Program (Unit {0}) =
      warn_unless (host.set_scheduler policy (plain prio)) "sched_setscheduler" in
    elim host.platform [
      | linux ↦ refused
      | qnx ↦
          if is_sporadic policy
          then require (host.set_scheduler policy (measuring_server prio))
              "sched_setscheduler (sporadic)"
          else refused
    ]

-- `args` is argv without the program's name; `start` is the first reading of the clock.
unfoldable pub main : Host → Timespec → (ℕ → Wake) → List String → Program ℤ
unfolding parse_sched_policy confine set_policy
main host start wakes [] = die "Usage: "
main host start wakes (arg ∷ _) = do
  policy ← parse_sched_policy host.platform arg
  confine host
  set_policy host policy
  measure wakes iterations 0 (timespec_add start period_ns) (pos 0)
