-- ===== src/Mosquitto/CpuLoad.antt =====
-- mosquitto/cpu_load_pubsub_test.c
use microkernel_benchmark.Prelude.{
  ℕ, String, List, [], ◌∷◌, Option, Bool, ◌&&◌, take, if◌then◌else◌,
}
use microkernel_benchmark.Prelude.Int.{ℤ, pos}
use microkernel_benchmark.Prelude.Program.{Program, pure, require, warn_unless, ◌>>=◌, ◌>>◌}
use microkernel_benchmark.Timespec.{Timespec, nanos}
use microkernel_benchmark.Policy.{
  Platform, Policy, other, on_qnx, is_sporadic, parse_policy, Param, plain, server, Host,
}
use microkernel_benchmark.Mosquitto.Exchange
use microkernel_benchmark.Mosquitto.Exchange.{Exchange}
use microkernel_benchmark.Mosquitto.Summary.{Summary, start, summarise}
use microkernel_benchmark.Mosquitto.Processes.{Fork, pid_of, Call, kill, waitpid, stop, request}

-- COUNT
abbrev pub count : ℕ
count = 100

unfoldable pub now_ns : Timespec → ℕ
now_ns = nanos

unfoldable pub on_message : Timespec → Exchange → Exchange
unfolding now_ns Exchange.on_message
on_message ts = Exchange.on_message count (now_ns ts)

-- The publishing loop, the wait and the callbacks of one run.
abbrev pub Step : Exchange → Exchange → Type 0
Step = Exchange.Step count

unfoldable pub start_broker : Fork → ℤ
start_broker = pid_of

unfoldable pub stop_broker : ℤ → List Call
unfolding stop
stop_broker = stop

unfoldable pub parse_sched_policy : Platform → String → Program Policy
unfolding parse_policy
parse_sched_policy platform =
    parse_policy platform "SCHED_SPORADIC not supported on Linux." "Unknown scheduling policy: "

-- The figures of a run, from the arrays as the exchange leaves them.
unfoldable pub report : Exchange → Summary
unfolding summarise
report e = summarise (take count e.recv_times) (take count e.send_times) start

abbrev pub load_procs : ℕ
load_procs = 2

-- What `run_test` asks of the scheduler; the answer is not looked at.
unfoldable pub run_request : Host → Policy → Option Param
run_request host policy = request host.platform policy (host.prio_max policy)

unfoldable pub run_test : Bool → Exchange → Program Summary
unfolding report
run_test created exchange = do require created "mosquitto_new"; pure (report exchange)

-- What a worker asks for itself: the lowest priority, or a server of 1 ms in every 50 ms.
unfoldable pub load_param : Platform → Policy → Param
load_param platform policy =
    if on_qnx platform && is_sporadic policy
    then server (record {
      sched_priority = pos 1;
      sched_ss_low_priority = 1;
      sched_ss_max_repl = 1;
      sched_ss_repl_period = record { tv_sec = 0; tv_nsec = 50_000_000 };
      sched_ss_init_budget = record { tv_sec = 0; tv_nsec = 1_000_000 };
    })
    else plain (pos 1)

-- `load_pids` after `start_load`, from the results of its forks.
unfoldable pub start_load : List Fork → List ℤ
start_load [] = []
start_load (f ∷ forks) = pid_of f ∷ start_load forks

unfoldable pub stop_load : List ℤ → List Call
stop_load [] = []
stop_load (pid ∷ pids) = kill pid ∷ waitpid pid ∷ stop_load pids

-- `baseline` and `loaded` are the states in which the two runs end.
unfoldable pub main :
    Host
    → Bool
    → Fork
    → List Fork
    → Bool
    → Bool
    → Exchange
    → Exchange
    → List String
    → Program (Summary × Summary × List Call × List Call)
unfolding parse_sched_policy run_test start_load stop_load start_broker stop_broker
main host locked broker forks created created_again baseline loaded args = do
  policy ← elim args [ [] ↦ pure other | arg ∷ _ ↦ parse_sched_policy host.platform arg ]
  warn_unless locked "mlockall failed"
  first ← run_test created baseline
  second ← run_test created_again loaded
  pure (
    first,
    second,
    stop_load (start_load (take load_procs forks)),
    stop_broker (start_broker broker),
  )
