-- ===== src/Priority/Qnx/Order.antt =====
-- qnx_priority_inversion.c: what holds of its threads, semaphores and mutex in every state.
use microkernel_benchmark.Prelude.{ℕ, ◌+◌, ◌≤◌, ◌≡◌, refl, arith, Option, none, some}
use microkernel_benchmark.Priority.Mutex.{owned_low, owned_high}
use microkernel_benchmark.Priority.{hold_ns}
use microkernel_benchmark.Priority.Qnx.{
  Main, creates_low, waits_locked, creates_high, waits_ready, creates_med, returned, Low, posted,
  High, holding, measured, unlocked, Med, State, Step, main_creates_low, main_locked,
  main_creates_high, main_ready, main_creates_med, main_done, low_locks, low_posts, low_starts,
  low_unlocks, high_posts, high_reads, high_locks, high_measures, high_unlocks, high_finishes,
  med_starts, med_finishes, Reach, here, next,
}

-- 1 when `main` is past creating each thread and past each wait, and 0 before.
abbrev pub made_low : Main → ℕ
made_low creates_low = 0
made_low _ = 1

abbrev pub passed_locked : Main → ℕ
passed_locked creates_low = 0
passed_locked waits_locked = 0
passed_locked _ = 1

abbrev pub made_high : Main → ℕ
made_high creates_low = 0
made_high waits_locked = 0
made_high creates_high = 0
made_high _ = 1

abbrev pub passed_ready : Main → ℕ
passed_ready creates_low = 0
passed_ready waits_locked = 0
passed_ready creates_high = 0
passed_ready waits_ready = 0
passed_ready _ = 1

abbrev pub made_med : Main → ℕ
made_med creates_low = 0
made_med waits_locked = 0
made_med creates_high = 0
made_med waits_ready = 0
made_med creates_med = 0
made_med _ = 1

abbrev pub passed_done : Main → ℕ
passed_done returned = 1
passed_done _ = 0

-- 1 when the low thread exists, has posted, has the mutex.
abbrev pub low_there : Low → ℕ
low_there Low.absent = 0
low_there _ = 1

abbrev pub low_posted : Low → ℕ
low_posted Low.absent = 0
low_posted Low.locking = 0
low_posted Low.locked = 0
low_posted _ = 1

abbrev pub low_in : Low → ℕ
low_in Low.locked = 1
low_in posted = 1
low_in (Low.spinning t) = 1
low_in _ = 0

-- 1 when the high thread exists, has posted, has the mutex, is through.
abbrev pub high_there : High → ℕ
high_there High.absent = 0
high_there _ = 1

abbrev pub high_posted : High → ℕ
high_posted High.absent = 0
high_posted High.starting = 0
high_posted _ = 1

abbrev pub high_in : High → ℕ
high_in (holding t0) = 1
high_in (measured t0 t1) = 1
high_in _ = 0

abbrev pub high_through : High → ℕ
high_through High.finished = 1
high_through _ = 0

abbrev pub med_there : Med → ℕ
med_there Med.absent = 0
med_there _ = 1

-- The hold of the low thread is over at the time `t`.
abbrev pub HeldUntil : Low → ℕ → Type 0
HeldUntil (Low.finished start) t = start + hold_ns ≤ t
HeldUntil _ t = ⊥

abbrev pub LowTimes : ℕ → Low → Type 0
LowTimes clock (Low.spinning start) = start ≤ clock
LowTimes clock (Low.finished start) = start + hold_ns ≤ clock
LowTimes clock _ = Unit

abbrev pub HighTimes : ℕ → Low → High → Option ℕ → Type 0
HighTimes clock low (High.locking t0) p = (t0 ≤ clock) × (p ≡ none)
HighTimes clock low (holding t0) p = (t0 ≤ clock) × HeldUntil low clock × (p ≡ none)
HighTimes clock low (measured t0 t1) p = (t0 ≤ t1) × (t1 ≤ clock) × HeldUntil low t1 × (p ≡ none)
HighTimes clock low unlocked p = (w : ℕ) × (p ≡ some w)
HighTimes clock low High.finished p = (w : ℕ) × (p ≡ some w)
HighTimes clock low _ p = p ≡ none

pub record Inv (s : State) : Type 0 where
  pub low_made : low_there s.low ≡ made_low s.main
  pub high_made : high_there s.high ≡ made_high s.main
  pub med_made : med_there s.med ≡ made_med s.main
  pub locked_posts : low_posted s.low ≡ s.low_locked + passed_locked s.main
  pub ready_posts : high_posted s.high ≡ s.high_ready + passed_ready s.main
  pub done_posts : high_through s.high ≡ s.high_done + passed_done s.main
  pub mutex_low : owned_low s.mutex ≡ low_in s.low
  pub mutex_high : owned_high s.mutex ≡ high_in s.high
  pub low_times : LowTimes s.clock s.low
  pub high_times : HighTimes s.clock s.low s.high s.printed

Step-Inv : {s t : State} → Step s t → Inv s → Inv t
Step-Inv (main_creates_low e) v = ground arith
Step-Inv (main_locked e f) v = ground arith
Step-Inv (main_creates_high e) v = ground arith
Step-Inv (main_ready e f) v = ground arith
Step-Inv (main_creates_med e) v = ground arith
Step-Inv (main_done e f) v = ground arith
Step-Inv (low_locks e f) v = ground arith
Step-Inv (low_posts e) v = ground arith
Step-Inv (low_starts e f) v = ground arith
Step-Inv (low_unlocks e f g) v = ground arith
Step-Inv (high_posts e) v = ground arith
Step-Inv (high_reads e f) v = ground arith
Step-Inv (high_locks e f) v = ground arith
Step-Inv (high_measures e f) v = ground arith
Step-Inv (high_unlocks e) v = ground arith
Step-Inv (high_finishes e) v = ground arith
Step-Inv (med_starts e f) v = ground arith
Step-Inv (med_finishes e f g) v = ground arith

pub Reach-Inv : {s : State} → Reach s → Inv s
Reach-Inv here = ground arith
Reach-Inv (next r running st) = Step-Inv st (Reach-Inv r)

taken_after :
    (s : State) (l : Low) {t0 t1 : ℕ}
    → Inv s
    → s.low ≡ l
    → s.high ≡ measured t0 t1
    → (start : ℕ) × (s.low ≡ Low.finished start) × (start + hold_ns ≤ t1) × (t0 ≤ t1)
taken_after s (Low.finished start) v el eh = (start, el, ground arith, ground arith)
taken_after s Low.absent v el eh = absurd (ground arith)
taken_after s Low.locking v el eh = absurd (ground arith)
taken_after s Low.locked v el eh = absurd (ground arith)
taken_after s posted v el eh = absurd (ground arith)
taken_after s (Low.spinning start) v el eh = absurd (ground arith)

-- In every reachable state in which the high thread has the mutex and has read the clock, the low
-- thread has taken and released it before, and the reading `t1` behind the high thread's wait,
-- which is not before its first reading `t0`, is at least 50 ms after the reading at which the low
-- thread began to spin.
pub high_after_low :
    {s : State} {t0 t1 : ℕ}
    → Reach s
    → s.high ≡ measured t0 t1
    → (start : ℕ) × (s.low ≡ Low.finished start) × (start + hold_ns ≤ t1) × (t0 ≤ t1)
high_after_low {s} r = taken_after s s.low (Reach-Inv r) refl
