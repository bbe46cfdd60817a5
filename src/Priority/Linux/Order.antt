-- ===== src/Priority/Linux/Order.antt =====
-- What holds in every state of linux_priority_inversion.c.
use microkernel_benchmark.Prelude.{ℕ, ◌+◌, ◌≤◌, ◌≡◌, arith, Option, none, some}
use microkernel_benchmark.Priority.Mutex.{owned_low, owned_high}
use microkernel_benchmark.Priority.{waited_ms}
use microkernel_benchmark.Priority.Linux.{
  Main, posts_low, posts_med, joins_high, returned, Low, locked, Med, High, holding, measured,
  State, Step, main_posts_low, main_posts_med, main_posts_high, main_joins, low_starts, low_locks,
  low_reads, low_unlocks, med_starts, med_reads, med_finishes, high_starts, high_reads, high_locks,
  high_measures, high_unlocks, Reach, here, next,
}

-- 1 when `main` has posted each semaphore, and 0 before.
abbrev pub past_low : Main → ℕ
past_low posts_low = 0
past_low _ = 1

abbrev pub past_med : Main → ℕ
past_med posts_low = 0
past_med posts_med = 0
past_med _ = 1

abbrev pub past_high : Main → ℕ
past_high joins_high = 1
past_high returned = 1
past_high _ = 0

-- 1 when the thread has passed its semaphore.
abbrev pub low_on : Low → ℕ
low_on Low.waiting = 0
low_on _ = 1

abbrev pub med_on : Med → ℕ
med_on Med.waiting = 0
med_on _ = 1

abbrev pub high_on : High → ℕ
high_on High.waiting = 0
high_on _ = 1

-- 1 when the thread has the mutex.
abbrev pub low_in : Low → ℕ
low_in locked = 1
low_in (Low.spinning start) = 1
low_in _ = 0

abbrev pub high_in : High → ℕ
high_in (holding t0) = 1
high_in (measured t0 t1) = 1
high_in _ = 0

abbrev pub LowTimes : ℕ → Low → Type 0
LowTimes clock (Low.spinning start) = start ≤ clock
LowTimes clock _ = Unit

abbrev pub HighTimes : ℕ → High → Option ℕ → Type 0
HighTimes clock (High.locking t0) p = (t0 ≤ clock) × (p ≡ none)
HighTimes clock (holding t0) p = (t0 ≤ clock) × (p ≡ none)
HighTimes clock (measured t0 t1) p = (t0 ≤ t1) × (t1 ≤ clock) × (p ≡ none)
HighTimes clock High.finished p =
    (t0 : ℕ) × (t1 : ℕ) × (t0 ≤ t1) × (t1 ≤ clock) × (p ≡ some (waited_ms t0 t1))
HighTimes clock _ p = p ≡ none

pub record Inv (s : State) : Type 0 where
  pub low_posts : past_low s.main ≡ s.low_start + low_on s.low
  pub med_posts : past_med s.main ≡ s.med_start + med_on s.med
  pub high_posts : past_high s.main ≡ s.high_start + high_on s.high
  pub mutex_low : owned_low s.mutex ≡ low_in s.low
  pub mutex_high : owned_high s.mutex ≡ high_in s.high
  pub low_times : LowTimes s.clock s.low
  pub high_times : HighTimes s.clock s.high s.printed
  pub joined : s.main ≡ returned → s.high ≡ High.finished

Step-Inv : {s t : State} → Step s t → Inv s → Inv t
Step-Inv (main_posts_low e) v = ground arith
Step-Inv (main_posts_med e) v = ground arith
Step-Inv (main_posts_high e) v = ground arith
Step-Inv (main_joins e f) v = ground arith
Step-Inv (low_starts e f) v = ground arith
Step-Inv (low_locks e f) v = ground arith
Step-Inv (low_reads e f) v = ground arith
Step-Inv (low_unlocks e f g) v = ground arith
Step-Inv (med_starts e f) v = ground arith
Step-Inv (med_reads e f) v = ground arith
Step-Inv (med_finishes e f g) v = ground arith
Step-Inv (high_starts e f) v = ground arith
Step-Inv (high_reads e f) v = ground arith
Step-Inv (high_locks e f) v = ground arith
Step-Inv (high_measures e f) v = ground arith
Step-Inv (high_unlocks e) v = ground arith

pub Reach-Inv : {s : State} → Reach s → Inv s
Reach-Inv here = ground arith
Reach-Inv (next r running st) = Step-Inv st (Reach-Inv r)
