-- ===== src/Priority/Qnx/Dispatch.antt =====
-- qnx_priority_inversion.c on one processor, with a mutex that has PTHREAD_PRIO_INHERIT as its
-- default: the runs that the scheduler allows. `inherits` says whether the attributes, as
-- pthread_attr_init makes them and the program leaves them, give a thread the priority of its creator;
-- `creator` is the priority of `main`.
use microkernel_benchmark.Prelude.{◌≡◌, ◌≢◌, Option, none, some, Bool, true, false}
use microkernel_benchmark.Prelude.Int.{ℤ}
use microkernel_benchmark.Policy.{Policy}
use microkernel_benchmark.Priority.{Owner, free, low_owns}
use microkernel_benchmark.Priority.Setup.{qnx_threads}
use microkernel_benchmark.Priority.Dispatch.{Thread, low, med, high, effective, Allowed}
use microkernel_benchmark.Priority.Qnx.{
  returned, Low, High, Med, State, init, Step, main_creates_low, main_locked, main_creates_high,
  main_ready, main_creates_med, main_done, low_locks, low_posts, low_starts, low_unlocks,
  high_posts, high_reads, high_locks, high_measures, high_unlocks, high_finishes, med_starts,
  med_finishes, Reach,
}

abbrev pub mover : {s t : State} → Step s t → Option Thread
mover (main_creates_low e) = none
mover (main_locked e f) = none
mover (main_creates_high e) = none
mover (main_ready e f) = none
mover (main_creates_med e) = none
mover (main_done e f) = none
mover (low_locks e f) = some low
mover (low_posts e) = some low
mover (low_starts e f) = some low
mover (low_unlocks e f g) = some low
mover (high_posts e) = some high
mover (high_reads e f) = some high
mover (high_locks e f) = some high
mover (high_measures e f) = some high
mover (high_unlocks e) = some high
mover (high_finishes e) = some high
mover (med_starts e f) = some med
mover (med_finishes e f g) = some med

abbrev pub LowReady : Low → Owner → Type 0
LowReady Low.absent mutex = ⊥
LowReady Low.locking mutex = mutex ≡ free
LowReady (Low.finished start) mutex = ⊥
LowReady _ mutex = Unit

abbrev pub MedReady : Med → Type 0
MedReady Med.absent = ⊥
MedReady Med.finished = ⊥
MedReady _ = Unit

abbrev pub HighReady : High → Owner → Type 0
HighReady High.absent mutex = ⊥
HighReady (High.locking t0) mutex = mutex ≡ free
HighReady High.finished mutex = ⊥
HighReady _ mutex = Unit

-- Which threads could run, also if a spinning thread has not come to its last look at the clock.
abbrev pub Ready : State → Thread → Type 0
Ready s low = LowReady s.low s.mutex
Ready s med = MedReady s.med
Ready s high = HighReady s.high s.mutex

abbrev pub blocks : High → Owner → Bool
blocks (High.locking t0) low_owns = true
blocks _ _ = false

abbrev pub prio : Bool → ℤ → ℤ → Policy → Bool → Thread → ℤ
prio inherits creator pmax policy = effective creator (qnx_threads inherits pmax policy) true

-- Runs from the start that the scheduler allows.
pub data Run (inherits : Bool) (creator pmax : ℤ) (policy : Policy) : State → Type 0 where
  begun : Run inherits creator pmax policy init
  goes_on :
      {s t : State}
      → Run inherits creator pmax policy s
      → s.main ≢ returned
      → (st : Step s t)
      → Allowed (prio inherits creator pmax policy (blocks s.high s.mutex)) (Ready s) (mover st)
      → Run inherits creator pmax policy t

pub Run-Reach :
    {inherits : Bool} {creator pmax : ℤ} {policy : Policy} {s : State}
    → Run inherits creator pmax policy s
    → Reach s
Run-Reach begun = Reach.here
Run-Reach (goes_on r running st a) = Reach.next (Run-Reach r) running st
