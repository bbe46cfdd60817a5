-- ===== src/Priority/Linux/Wait.antt =====
-- linux_priority_inversion.c: the steps that its threads can take, and what they have left to do.
use mathlib.Core.WellFounded.{Acc}
use microkernel_benchmark.Prelude.{ℕ, ◌+◌, ◌<◌, ◌≤◌, ◌≡◌, ◌≢◌, refl, ◌⊎◌, inl, inr, arith, some}
use microkernel_benchmark.Prelude.Descent.{descent-Acc}
use microkernel_benchmark.Priority.Mutex.{is_free}
use microkernel_benchmark.Priority.{hold_ns, waited_ms}
use microkernel_benchmark.Priority.Linux.{
  Main, posts_low, posts_med, posts_high, joins_high, returned, Low, locked, Med, High, holding,
  measured, State, Step, main_posts_low, main_posts_med, main_posts_high, main_joins, low_starts,
  low_locks, low_reads, low_unlocks, med_starts, med_reads, med_finishes, high_starts, high_reads,
  high_locks, high_measures, high_unlocks, Reach,
}
use microkernel_benchmark.Priority.Linux.Order.{Inv, Reach-Inv}
use microkernel_benchmark.Priority.Linux.Readings.{before_lock, behind_lock, printed_readings}

-- The steps that each of them has left.
abbrev main_rank : Main → ℕ
main_rank posts_low = 4
main_rank posts_med = 3
main_rank posts_high = 2
main_rank joins_high = 1
main_rank returned = 0

abbrev low_rank : Low → ℕ
low_rank Low.waiting = 4
low_rank Low.locking = 3
low_rank locked = 2
low_rank (Low.spinning start) = 1
low_rank Low.finished = 0

abbrev med_rank : Med → ℕ
med_rank Med.waiting = 3
med_rank Med.started = 2
med_rank (Med.spinning start) = 1
med_rank Med.finished = 0

abbrev high_rank : High → ℕ
high_rank High.waiting = 5
high_rank High.started = 4
high_rank (High.locking t0) = 3
high_rank (holding t0) = 2
high_rank (measured t0 t1) = 1
high_rank High.finished = 0

abbrev rank : State → ℕ
rank s = main_rank s.main + low_rank s.low + med_rank s.med + high_rank s.high

descends : {s t : State} → Step s t → rank t < rank s
descends (main_posts_low e) = ground arith
descends (main_posts_med e) = ground arith
descends (main_posts_high e) = ground arith
descends (main_joins e f) = ground arith
descends (low_starts e f) = ground arith
descends (low_locks e f) = ground arith
descends (low_reads e f) = ground arith
descends (low_unlocks e f g) = ground arith
descends (med_starts e f) = ground arith
descends (med_reads e f) = ground arith
descends (med_finishes e f g) = ground arith
descends (high_starts e f) = ground arith
descends (high_reads e f) = ground arith
descends (high_locks e f) = ground arith
descends (high_measures e f) = ground arith
descends (high_unlocks e) = ground arith

abbrev Moves : State → Type 0
Moves s = (t : State) × Step s t

-- The high thread waits for the mutex: it gets it, or the low thread goes on.
until_free : (s : State) (l : Low) {t0 : ℕ} → Inv s → s.low ≡ l → s.high ≡ High.locking t0 → Moves s
until_free s locked v el eh = (_, low_reads {now = s.clock} el (omega arith))
until_free s (Low.spinning start) v el eh =
    (_, low_unlocks {now = s.clock + hold_ns} el (omega arith) (ground arith))
until_free s Low.waiting v el eh = (_, high_locks eh (is_free (ground arith) (ground arith)))
until_free s Low.locking v el eh = (_, high_locks eh (is_free (ground arith) (ground arith)))
until_free s Low.finished v el eh = (_, high_locks eh (is_free (ground arith) (ground arith)))

-- `main` waits for the high thread.
until_joined : (s : State) (h : High) → Inv s → s.high ≡ h → s.main ≡ joins_high → Moves s
until_joined s High.waiting v e m = (_, high_starts {n = 0} e (ground arith))
until_joined s High.started v e m = (_, high_reads {now = s.clock} e (omega arith))
until_joined s (High.locking t0) v e m = until_free s s.low v refl e
until_joined s (holding t0) v e m = (_, high_measures {now = s.clock} e (omega arith))
until_joined s (measured t0 t1) v e m = (_, high_unlocks e)
until_joined s High.finished v e m = (_, main_joins m e)

-- `main` has returned, and the figure is of the two readings that the high thread has made in the
-- run, which are in order.
pub record Ended {s : State} (r : Reach s) : Type 0 where
  pub returns : s.main ≡ returned
  pub t0 : ℕ
  pub t1 : ℕ
  pub before : before_lock r ≡ some t0
  pub behind : behind_lock r ≡ some t1
  pub ordered : t0 ≤ t1
  pub figure : s.printed ≡ some (waited_ms t0 t1)

ended : {s : State} (r : Reach s) → s.main ≡ returned → Ended r
ended r m =
    let (t0, t1, a, b, lo, e) = printed_readings r ((Reach-Inv r).joined m) in
    record { returns = m; t0 = t0; t1 = t1; before = a; behind = b; ordered = lo; figure = e }

enabled : {s : State} (r : Reach s) (m : Main) → s.main ≡ m → Ended r ⊎ Moves s
enabled r posts_low m = inr (_, main_posts_low m)
enabled r posts_med m = inr (_, main_posts_med m)
enabled r posts_high m = inr (_, main_posts_high m)
enabled {s} r joins_high m = inr (until_joined s s.high (Reach-Inv r) refl m)
enabled r returned m = inl (ended r m)

-- `t` comes after `s`.
abbrev pub After : State → State → Type 0
After t s = (s.main ≢ returned) × Step s t

-- For every run: `main` has returned and what the high thread has printed is the difference in
-- milliseconds of its reading of the clock before pthread_mutex_lock in this run and of the one behind
-- it, which are in order, or some thread can take a step; and no sequence of steps goes on for ever.
pub waits_end : {s : State} (r : Reach s) → (Ended r ⊎ ((t : State) × Step s t)) × Acc After s
waits_end {s} r = (
  enabled r s.main refl,
  descent-Acc After (λ s. Unit) rank (λ s t _ (running, st). (tt, descends st)) s tt,
)
