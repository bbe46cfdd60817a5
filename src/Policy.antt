-- ===== src/Policy.antt =====
-- Scheduling policies: what `parse_sched_policy` of the benchmarks accepts, and what the programs
-- ask of the scheduler. The constants SCHED_FIFO, ... are constructors; `__QNX__` is a platform.
pub mod Agreement
use microkernel_benchmark.Prelude.{ℕ, ◌≡◌, String, Bool, true, false, ◌&&◌, str_eq, if◌then◌else◌}
use microkernel_benchmark.Prelude.Int.{ℤ}
use microkernel_benchmark.Prelude.Program.{Program, pure, die}
use microkernel_benchmark.Timespec.{Timespec}

pub data Platform : Type 0 where
  linux qnx : Platform

pub data Policy : Type 0 where
  fifo rr sporadic other : Policy

abbrev pub on_qnx : Platform → Bool
on_qnx linux = false
on_qnx qnx = true

abbrev pub is_sporadic : Policy → Bool
is_sporadic sporadic = true
is_sporadic _ = false

abbrev pub is_other : Policy → Bool
is_other other = true
is_other _ = false

-- The chain of `strcmp` that the parsers share, with the messages for "sporadic" on Linux and for
-- any other word.
unfoldable pub parse_policy : Platform → String → String → String → Program Policy
parse_policy platform no_sporadic unknown arg =
    if str_eq arg "fifo"
    then pure fifo
    else if str_eq arg "rr"
    then pure rr
    else if str_eq arg "sporadic"
    then (if on_qnx platform then pure sporadic else die no_sporadic)
    else die unknown

-- `struct sched_param_sporadic`
pub record Sporadic : Type 0 where
  pub sched_priority : ℤ
  pub sched_ss_low_priority : ℕ
  pub sched_ss_max_repl : ℕ
  pub sched_ss_repl_period : Timespec
  pub sched_ss_init_budget : Timespec

-- What `sched_setscheduler` and `pthread_setschedparam` are given.
pub data Param : Type 0 where
  plain : ℤ → Param
  server : Sporadic → Param

-- The sporadic server of the measuring programs: 5 ms in every 50 ms.
abbrev pub measuring_server : ℤ → Param
measuring_server prio = server (record {
  sched_priority = prio;
  sched_ss_low_priority = 10;
  sched_ss_max_repl = 5;
  sched_ss_repl_period = record { tv_sec = 0; tv_nsec = 50_000_000 };
  sched_ss_init_budget = record { tv_sec = 0; tv_nsec = 5_000_000 };
})

-- `if (policy == SCHED_SPORADIC) sps else param`, the first branch under `#ifdef __QNX__`.
abbrev pub measuring_param : Platform → Policy → ℤ → Param
measuring_param platform policy prio =
    if on_qnx platform && is_sporadic policy then measuring_server prio else plain prio

-- What a program asks of the kernel before it measures; each answer says whether the call
-- succeeded.
pub record Host : Type 0 where
  pub platform : Platform
  pub prio_max : Policy → ℤ
  pub set_scheduler : Policy → Param → Bool
  pub set_affinity : ℕ → Bool
  pub set_rlimit_as : ℕ → Bool
  pub create_thread : ℕ → Bool
