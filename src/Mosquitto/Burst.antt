-- ===== src/Mosquitto/Burst.antt =====
-- mosquitto/burst_pubsub_test.c
use microkernel_benchmark.Prelude.{ℕ, String, List, [], ◌∷◌, Bool, ◌&&◌, take, if◌then◌else◌}
use microkernel_benchmark.Prelude.Int.{ℤ}
use microkernel_benchmark.Prelude.Program.{Program, pure, require, warn_unless, ◌>>=◌, ◌>>◌}
use microkernel_benchmark.Timespec.{Timespec, nanos}
use microkernel_benchmark.Policy.{
  Platform, Policy, fifo, rr, sporadic, other, on_qnx, is_sporadic, is_other, parse_policy, plain,
  measuring_server, Host,
}
use microkernel_benchmark.Mosquitto.Exchange
use microkernel_benchmark.Mosquitto.Exchange.{Exchange}
use microkernel_benchmark.Mosquitto.Summary.{Summary, start, summarise}
use microkernel_benchmark.Mosquitto.Processes.{Fork, pid_of, Call, stop}

-- COUNT
abbrev pub count : ℕ
count = 10000

unfoldable pub now_ns : Timespec → ℕ
now_ns = nanos

unfoldable pub on_message : Timespec → Exchange → Exchange
unfolding now_ns Exchange.on_message
on_message ts = Exchange.on_message count (now_ns ts)

-- The publishing loop, the wait and the callbacks of one run.
abbrev pub Step : Exchange → Exchange → Type 0
Step = Exchange.Step count

unfoldable pub start_broker : Fork → ℤ
start_broker = pid_of

unfoldable pub stop_broker : ℤ → List Call
unfolding stop
stop_broker = stop

unfoldable pub parse_sched_policy : Platform → String → Program Policy
unfolding parse_policy
parse_sched_policy platform =
    parse_policy platform "SCHED_SPORADIC not supported on Linux." "Unknown policy: "

-- The figures of a run, from the arrays as the exchange leaves them.
unfoldable pub report : Exchange → Summary
unfolding summarise
report e = summarise (take count e.recv_times) (take count e.send_times) start

-- A refused request is reported and passed over.
unfoldable pub apply_policy : Host → Policy → Program (Unit {0})
apply_policy host policy =
    let prio = host.prio_max policy in
    if on_qnx host.platform && is_sporadic policy
    then warn_unless (host.set_scheduler policy (measuring_server prio))
        "pthread_setschedparam (sporadic)"
    else if is_other policy
    then pure tt
    else warn_unless (host.set_scheduler policy (plain prio)) "pthread_setschedparam"

-- `run_burst_test`: `created` says whether mosquitto_new gave a client, and `exchange` is the state
-- in which the publishing and the wait end.
unfoldable pub run_burst_test : Host → Policy → Bool → Exchange → Program Summary
unfolding apply_policy report
run_burst_test host policy created exchange = do
  require created "Error: mosquitto_new()"
  apply_policy host policy
  pure (report exchange)

unfoldable pub policy_str : Policy → String
policy_str fifo = "FIFO"
policy_str rr = "RR"
policy_str sporadic = "SPORADIC"
policy_str other = "OTHER"

-- `locked` says whether mlockall succeeded. The result has the calls that stop the broker.
unfoldable pub main :
    Host → Bool → Fork → Bool → Exchange → List String → Program (Summary × List Call)
unfolding parse_sched_policy run_burst_test start_broker stop_broker
main host locked broker created exchange args = do
  policy ← elim args [ [] ↦ pure other | arg ∷ _ ↦ parse_sched_policy host.platform arg ]
  warn_unless locked "mlockall failed"
  summary ← run_burst_test host policy created exchange
  pure (summary, stop_broker (start_broker broker))
