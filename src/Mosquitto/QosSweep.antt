-- ===== src/Mosquitto/QosSweep.antt =====
-- mosquitto/qos_sweep_test.c
use microkernel_benchmark.Prelude.{ℕ, zero, suc, ◌+◌, String, List, [], ◌∷◌, Option, Bool, take}
use microkernel_benchmark.Prelude.Int.{ℤ}
use microkernel_benchmark.Prelude.Program.{Program, pure, require, warn_unless, ◌>>=◌, ◌>>◌}
use microkernel_benchmark.Timespec.{Timespec, nanos}
use microkernel_benchmark.Policy.{Platform, Policy, other, parse_policy, Param, Host}
use microkernel_benchmark.Mosquitto.Exchange
use microkernel_benchmark.Mosquitto.Exchange.{Exchange}
use microkernel_benchmark.Mosquitto.Summary.{Summary, start, summarise}
use microkernel_benchmark.Mosquitto.Processes.{Fork, pid_of, Call, stop, request}

-- COUNT
abbrev pub count : ℕ
count = 1000

unfoldable pub now_ns : Timespec → ℕ
now_ns = nanos

unfoldable pub on_message : Timespec → Exchange → Exchange
unfolding now_ns Exchange.on_message
on_message ts = Exchange.on_message count (now_ns ts)

-- The publishing loop, the wait and the callbacks of one run.
abbrev pub Step : Exchange → Exchange → Type 0
Step = Exchange.Step count

unfoldable pub start_broker : Fork → ℤ
start_broker = pid_of

unfoldable pub stop_broker : ℤ → List Call
unfolding stop
stop_broker = stop

unfoldable pub parse_sched_policy : Platform → String → Program Policy
unfolding parse_policy
parse_sched_policy platform =
    parse_policy platform "SCHED_SPORADIC not supported on Linux." "Unknown scheduling policy: "

-- The figures of a run, from the arrays as the exchange leaves them.
unfoldable pub report : Exchange → Summary
unfolding summarise
report e = summarise (take count e.recv_times) (take count e.send_times) start

-- What `run_qos_test` asks of the scheduler; the answer is not looked at.
unfoldable pub run_request : Host → Policy → Option Param
run_request host policy = request host.platform policy (host.prio_max policy)

-- One run at a level of service; `created` and `exchange` are what that run meets.
unfoldable pub run_qos_test : ℕ → (ℕ → Bool) → (ℕ → Exchange) → Program Summary
unfolding report
run_qos_test qos created exchange = do
  require (created qos) "Error: mosquitto_new()"
  pure (report (exchange qos))

-- `for (int qos = 0; qos <= 2; qos++)`, with `n` levels to go from `qos` on.
unfoldable pub sweep : ℕ → ℕ → (ℕ → Bool) → (ℕ → Exchange) → Program (List Summary)
unfolding run_qos_test
sweep zero qos created exchange = pure []
sweep (suc n) qos created exchange = do
  summary ← run_qos_test qos created exchange
  rest ← sweep n (qos + 1) created exchange
  pure (summary ∷ rest)

unfoldable pub main :
    Host
    → Bool
    → Fork
    → (ℕ → Bool)
    → (ℕ → Exchange)
    → List String
    → Program (List Summary × List Call)
unfolding parse_sched_policy sweep start_broker stop_broker
main host locked broker created exchange args = do
  policy ← elim args [ [] ↦ pure other | arg ∷ _ ↦ parse_sched_policy host.platform arg ]
  warn_unless locked "mlockall failed"
  summaries ← sweep 3 0 created exchange
  pure (summaries, stop_broker (start_broker broker))
