-- ===== src/Mosquitto/Processes.antt =====
-- The processes that the three programs start and stop, and what they ask of the scheduler.
use microkernel_benchmark.Prelude.{ℕ, Option, none, some, List, [], ◌∷◌, ◌&&◌, if◌then◌else◌}
use microkernel_benchmark.Prelude.Int.{ℤ, pos, negsuc, ltb_ℤ}
use microkernel_benchmark.Policy.{
  Platform, Policy, on_qnx, is_sporadic, is_other, Param, plain, measuring_server,
}

-- What `fork` returns to the parent.
pub data Fork : Type 0 where
  refused : Fork
  child_is : (pid : ℕ) → Fork

abbrev pub pid_of : Fork → ℤ
pid_of refused = negsuc 0
pid_of (child_is pid) = pos pid

pub data Call : Type 0 where
  kill : (pid : ℤ) → Call  -- with SIGTERM
  waitpid : (pid : ℤ) → Call

-- `stop_broker`, given the `broker_pid` that `start_broker` has stored.
unfoldable pub stop : ℤ → List Call
stop broker_pid = if ltb_ℤ (pos 0) broker_pid then kill broker_pid ∷ waitpid broker_pid ∷ [] else []

-- The request to the scheduler, if one is made: none is under SCHED_OTHER.
abbrev pub request : Platform → Policy → ℤ → Option Param
request platform policy prio =
    if on_qnx platform && is_sporadic policy
    then some (measuring_server prio)
    else if is_other policy
    then none
    else some (plain prio)
