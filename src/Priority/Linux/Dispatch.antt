-- ===== src/Priority/Linux/Dispatch.antt =====
-- linux_priority_inversion.c on one processor: the runs that the scheduler allows.
use microkernel_benchmark.Prelude.{ℕ, ◌<◌, ◌≡◌, ◌≢◌, Option, none, some, Bool, true, false}
use microkernel_benchmark.Prelude.Int.{ℤ}
use microkernel_benchmark.Policy.{Policy}
use microkernel_benchmark.Priority.{Owner, free, low_owns}
use microkernel_benchmark.Priority.Setup.{linux_threads}
use microkernel_benchmark.Priority.Dispatch.{Thread, low, med, high, effective, Allowed}
use microkernel_benchmark.Priority.Linux.{
  returned, Low, Med, High, State, Step, main_posts_low, main_posts_med, main_posts_high,
  main_joins, low_starts, low_locks, low_reads, low_unlocks, med_starts, med_reads, med_finishes,
  high_starts, high_reads, high_locks, high_measures, high_unlocks,
}

-- The thread that takes a step.
abbrev pub mover : {s t : State} → Step s t → Option Thread
mover (main_posts_low e) = none
mover (main_posts_med e) = none
mover (main_posts_high e) = none
mover (main_joins e f) = none
mover (low_starts e f) = some low
mover (low_locks e f) = some low
mover (low_reads e f) = some low
mover (low_unlocks e f g) = some low
mover (med_starts e f) = some med
mover (med_reads e f) = some med
mover (med_finishes e f g) = some med
mover (high_starts e f) = some high
mover (high_reads e f) = some high
mover (high_locks e f) = some high
mover (high_measures e f) = some high
mover (high_unlocks e) = some high

-- Which threads could run, also if a spinning thread has not come to its last look at the clock.
abbrev pub LowReady : Low → ℕ → Owner → Type 0
LowReady Low.waiting posts mutex = 0 < posts
LowReady Low.locking posts mutex = mutex ≡ free
LowReady Low.finished posts mutex = ⊥
LowReady _ posts mutex = Unit

abbrev pub MedReady : Med → ℕ → Type 0
MedReady Med.waiting posts = 0 < posts
MedReady Med.finished posts = ⊥
MedReady _ posts = Unit

abbrev pub HighReady : High → ℕ → Owner → Type 0
HighReady High.waiting posts mutex = 0 < posts
HighReady (High.locking t0) posts mutex = mutex ≡ free
HighReady High.finished posts mutex = ⊥
HighReady _ posts mutex = Unit

abbrev pub Ready : State → Thread → Type 0
Ready s low = LowReady s.low s.low_start s.mutex
Ready s med = MedReady s.med s.med_start
Ready s high = HighReady s.high s.high_start s.mutex

abbrev pub blocks : High → Owner → Bool
blocks (High.locking t0) low_owns = true
blocks _ _ = false

-- The mutex has the protocol of a mutex without attributes, PTHREAD_PRIO_NONE. `main` has asked for
-- the greatest priority when it creates the threads, which take their own.
abbrev pub prio : ℤ → Policy → Bool → Thread → ℤ
prio prio_max policy = effective prio_max (linux_threads prio_max policy) false

-- Runs from `s` that the scheduler allows.
pub data Run (prio_max : ℤ) (policy : Policy) (s : State) : State → Type 0 where
  here : Run prio_max policy s s
  next :
      {t u : State}
      → Run prio_max policy s t
      → t.main ≢ returned
      → (st : Step t u)
      → Allowed (prio prio_max policy (blocks t.high t.mutex)) (Ready t) (mover st)
      → Run prio_max policy s u
