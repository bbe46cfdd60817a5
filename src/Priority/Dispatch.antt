-- ===== src/Priority/Dispatch.antt =====
-- Which thread may run: one processor under SCHED_FIFO or SCHED_RR, where no thread runs while one
-- of higher priority is ready, and of several with the same priority any may run. Linux pins `main`, and with it the threads that it creates, to one
-- processor. The kernel is not part of the repository: this is what POSIX says of the two policies.
use microkernel_benchmark.Prelude.{Option, none, some, Bool, ◌&&◌, if◌then◌else◌}
use microkernel_benchmark.Prelude.Int.{ℤ, ◌≤ℤ◌}
use microkernel_benchmark.Policy.{Param, plain, server}
use microkernel_benchmark.Priority.Setup.{Attributes, Threads}

pub data Thread : Type 0 where
  low med high : Thread

-- Of a sporadic server, the priority before its budget is used up.
abbrev pub priority : Param → ℤ
priority (plain prio) = prio
priority (server s) = s.sched_priority

-- The priority of a thread that a creator of priority `creator` makes with these attributes.
abbrev pub given : ℤ → Attributes → ℤ
given creator a = if a.is_explicit then priority a.param else creator

abbrev pub asked : ℤ → Threads → Thread → ℤ
asked creator threads low = given creator threads.low
asked creator threads med = given creator threads.med
asked creator threads high = given creator threads.high

-- The priority that a thread runs with. `inherits` is the protocol PTHREAD_PRIO_INHERIT of the mutex,
-- and `blocks` says that the low thread has the mutex while the high one waits for it.
abbrev pub effective : ℤ → Threads → Bool → Bool → Thread → ℤ
effective creator threads inherits blocks low =
    if inherits && blocks then asked creator threads high else asked creator threads low
effective creator threads inherits blocks med = asked creator threads med
effective creator threads inherits blocks high = asked creator threads high

-- No thread that is ready has a higher priority.
pub record IsFirst (prio : Thread → ℤ) (Ready : Thread → Type 0) (mover : Thread) : Type 0 where
  pub unbeaten : (other : Thread) → Ready other → prio other ≤ℤ prio mover

-- A step of thread `mover` is one that the scheduler allows; `none` is `main`, of which nothing is
-- assumed, and `Ready` says which threads could run.
abbrev pub Allowed : (Thread → ℤ) → (Thread → Type 0) → Option Thread → Type 0
Allowed prio Ready none = Unit
Allowed prio Ready (some mover) = IsFirst prio Ready mover

each :
    (prio : Thread → ℤ) (Ready : Thread → Type 0) (mover : Thread)
    → (Ready low → prio low ≤ℤ prio mover)
    → (Ready med → prio med ≤ℤ prio mover)
    → (Ready high → prio high ≤ℤ prio mover)
    → (other : Thread) → Ready other
    → prio other ≤ℤ prio mover
each prio Ready mover l m h low = l
each prio Ready mover l m h med = m
each prio Ready mover l m h high = h

pub first :
    {prio : Thread → ℤ} {Ready : Thread → Type 0} {mover : Thread}
    → (Ready low → prio low ≤ℤ prio mover)
    → (Ready med → prio med ≤ℤ prio mover)
    → (Ready high → prio high ≤ℤ prio mover)
    → IsFirst prio Ready mover
first {prio} {Ready} {mover} l m h = record { unbeaten = each prio Ready mover l m h }
