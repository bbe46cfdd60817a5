-- ===== src/Fairness/Pipes.antt =====
-- ipc/ipc_pipe_latency.c
use microkernel_benchmark.Prelude.{ℕ, ◌%◌, String, List, [], ◌∷◌, Option, Bool}
use microkernel_benchmark.Prelude.Int.{pos, ◌-ℤ◌}
use microkernel_benchmark.Prelude.Program.{Program, pure, warn_unless, ◌>>=◌, ◌>>◌}
use microkernel_benchmark.Policy.{
  Platform, Policy, fifo, rr, sporadic, other, parse_policy, Param, measuring_param, Host,
}
use microkernel_benchmark.Fairness.{num_procs, Report, spawn, summary}

unfoldable pub parse_sched_policy : Platform → String → Program Policy
unfolding parse_policy
parse_sched_policy platform =
    parse_policy platform "SCHED_SPORADIC is not supported on Linux." "Unknown policy: "

-- Child `i` asks for a priority a little below the greatest.
unfoldable pub child_param : Host → Policy → ℕ → Param
unfolding ◌-ℤ◌
child_param host policy i =
    measuring_param host.platform policy (host.prio_max policy -ℤ pos (i % 3))

-- A refused request is reported and passed over.
unfoldable pub schedule : Host → Policy → ℕ → Program (Unit {0})
unfolding child_param
schedule host policy i =
    warn_unless (host.set_scheduler policy (child_param host policy i)) "sched_setscheduler (child)"

unfoldable pub policy_name : Policy → String
policy_name fifo = "FIFO"
policy_name rr = "RR"
policy_name sporadic = "SPORADIC"
policy_name other = "SPORADIC"

unfoldable pub main :
    Host → (ℕ → Bool) → (ℕ → Bool) → (ℕ → Option ℕ) → List String → Program (Policy × Report)
unfolding parse_sched_policy spawn summary
main host piped forked counters args = do
  policy ← elim args [ [] ↦ pure fifo | arg ∷ _ ↦ parse_sched_policy host.platform arg ]
  spawn piped forked num_procs 0
  pure (policy, summary counters)
