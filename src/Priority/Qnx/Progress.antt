-- ===== src/Priority/Qnx/Progress.antt =====
-- qnx_priority_inversion.c: the steps that its threads can take, and what they have left to do.
use mathlib.Core.WellFounded.{Acc}
use microkernel_benchmark.Prelude.{
  ℕ, zero, suc, ◌+◌, ◌<◌, ◌≡◌, ◌≢◌, refl, subst, ◌⊎◌, inl, inr, arith, some,
}
use microkernel_benchmark.Prelude.Descent.{descent-Acc}
use microkernel_benchmark.Priority.Mutex.{is_free}
use microkernel_benchmark.Priority.{hold_ns}
use microkernel_benchmark.Priority.Qnx.{
  Main, creates_low, waits_locked, creates_high, waits_ready, creates_med, waits_done, returned,
  Low, posted, High, ready, holding, measured, unlocked, Med, State, Step, main_creates_low,
  main_locked, main_creates_high, main_ready, main_creates_med, main_done, low_locks, low_posts,
  low_starts, low_unlocks, high_posts, high_reads, high_locks, high_measures, high_unlocks,
  high_finishes, med_starts, med_finishes, Reach,
}
use microkernel_benchmark.Priority.Qnx.Order.{Inv, Reach-Inv, HighTimes, high_there, high_in}

-- The steps that each of them has left.
abbrev pub main_rank : Main → ℕ
main_rank creates_low = 6
main_rank waits_locked = 5
main_rank creates_high = 4
main_rank waits_ready = 3
main_rank creates_med = 2
main_rank waits_done = 1
main_rank returned = 0

abbrev pub low_rank : Low → ℕ
low_rank Low.absent = 5
low_rank Low.locking = 4
low_rank Low.locked = 3
low_rank posted = 2
low_rank (Low.spinning start) = 1
low_rank (Low.finished start) = 0

abbrev pub high_rank : High → ℕ
high_rank High.absent = 7
high_rank High.starting = 6
high_rank ready = 5
high_rank (High.locking t0) = 4
high_rank (holding t0) = 3
high_rank (measured t0 t1) = 2
high_rank unlocked = 1
high_rank High.finished = 0

abbrev pub med_rank : Med → ℕ
med_rank Med.absent = 3
med_rank Med.starting = 2
med_rank (Med.spinning start) = 1
med_rank Med.finished = 0

abbrev pub rank : State → ℕ
rank s = main_rank s.main + low_rank s.low + high_rank s.high + med_rank s.med

descends : {s t : State} → Step s t → Inv s → rank t < rank s
descends (main_creates_low e) v = ground arith
descends (main_locked e f) v = ground arith
descends (main_creates_high e) v = ground arith
descends (main_ready e f) v = ground arith
descends (main_creates_med e) v = ground arith
descends (main_done e f) v = ground arith
descends (low_locks e f) v = ground arith
descends (low_posts e) v = ground arith
descends (low_starts e f) v = ground arith
descends (low_unlocks e f g) v = ground arith
descends (high_posts e) v = ground arith
descends (high_reads e f) v = ground arith
descends (high_locks e f) v = ground arith
descends (high_measures e f) v = ground arith
descends (high_unlocks e) v = ground arith
descends (high_finishes e) v = ground arith
descends (med_starts e f) v = ground arith
descends (med_finishes e f g) v = ground arith

abbrev Moves : State → Type 0
Moves s = (t : State) × Step s t

count_cases : (n : ℕ) → (n ≡ 0) ⊎ ((m : ℕ) × (n ≡ m + 1))
count_cases zero = inl refl
count_cases (suc m) = inr (m, omega arith)

-- A thread that is not there does not have the mutex.
high_out : (h : High) → high_there h ≡ 0 → high_in h ≡ 0
high_out High.absent e = refl
high_out High.starting e = absurd (ground arith)
high_out ready e = absurd (ground arith)
high_out (High.locking t0) e = absurd (ground arith)
high_out (holding t0) e = absurd (ground arith)
high_out (measured t0 t1) e = absurd (ground arith)
high_out unlocked e = absurd (ground arith)
high_out High.finished e = absurd (ground arith)

-- `main` waits for the low thread to have locked.
until_locked :
    (s : State) (l : Low) → Inv s → s.low ≡ l → s.main ≡ waits_locked → s.low_locked ≡ 0 → Moves s
until_locked s Low.absent v e m empty = absurd (ground arith)
until_locked s Low.locking v e m empty =
    let out : high_in s.high ≡ 0 = high_out s.high (ground arith) in
    (_, low_locks e (is_free (ground arith) (omega (arith, out, v.mutex_high))))
until_locked s Low.locked v e m empty = (_, low_posts e)
until_locked s posted v e m empty = absurd (ground arith)
until_locked s (Low.spinning start) v e m empty = absurd (ground arith)
until_locked s (Low.finished start) v e m empty = absurd (ground arith)

-- `main` waits for the high thread to have started.
until_ready :
    (s : State) (h : High) → Inv s → s.high ≡ h → s.main ≡ waits_ready → s.high_ready ≡ 0 → Moves s
until_ready s High.absent v e m empty = absurd (ground arith)
until_ready s High.starting v e m empty = (_, high_posts e)
until_ready s ready v e m empty = absurd (ground arith)
until_ready s (High.locking t0) v e m empty = absurd (ground arith)
until_ready s (holding t0) v e m empty = absurd (ground arith)
until_ready s (measured t0 t1) v e m empty = absurd (ground arith)
until_ready s unlocked v e m empty = absurd (ground arith)
until_ready s High.finished v e m empty = absurd (ground arith)

-- The high thread waits for the mutex: it gets it, or the low thread goes on.
until_free : (s : State) (l : Low) {t0 : ℕ} → Inv s → s.low ≡ l → s.high ≡ High.locking t0 → Moves s
until_free s Low.locked v el eh = (_, low_posts el)
until_free s posted v el eh = (_, low_starts {now = s.clock} el (omega arith))
until_free s (Low.spinning start) v el eh =
    (_, low_unlocks {now = s.clock + hold_ns} el (omega arith) (ground arith))
until_free s Low.absent v el eh = (_, high_locks eh (is_free (ground arith) (ground arith)))
until_free s Low.locking v el eh = (_, high_locks eh (is_free (ground arith) (ground arith)))
until_free s (Low.finished start) v el eh =
    (_, high_locks eh (is_free (ground arith) (ground arith)))

-- `main` waits for the high thread to be through.
until_done :
    (s : State) (h : High) → Inv s → s.high ≡ h → s.main ≡ waits_done → s.high_done ≡ 0 → Moves s
until_done s High.absent v e m empty = absurd (ground arith)
until_done s High.starting v e m empty = (_, high_posts e)
until_done s ready v e m empty = (_, high_reads {now = s.clock} e (omega arith))
until_done s (High.locking t0) v e m empty = until_free s s.low v refl e
until_done s (holding t0) v e m empty = (_, high_measures {now = s.clock} e (omega arith))
until_done s (measured t0 t1) v e m empty = (_, high_unlocks e)
until_done s unlocked v e m empty = (_, high_finishes e)
until_done s High.finished v e m empty = absurd (ground arith)

has_printed :
    (s : State) (h : High) → Inv s → s.high ≡ h → s.main ≡ returned → (w : ℕ) × (s.printed ≡ some w)
has_printed s High.absent v e m = absurd (ground arith)
has_printed s High.starting v e m = absurd (ground arith)
has_printed s ready v e m = absurd (ground arith)
has_printed s (High.locking t0) v e m = absurd (ground arith)
has_printed s (holding t0) v e m = absurd (ground arith)
has_printed s (measured t0 t1) v e m = absurd (ground arith)
has_printed s unlocked v e m = absurd (ground arith)
has_printed s High.finished v e m = subst (λ h. HighTimes s.clock s.low h s.printed) e v.high_times

abbrev pub Ended : State → Type 0
Ended s = (s.main ≡ returned) × (w : ℕ) × (s.printed ≡ some w)

enabled : (s : State) (m : Main) → Inv s → s.main ≡ m → Ended s ⊎ Moves s
enabled s creates_low v m = inr (_, main_creates_low m)
enabled s waits_locked v m = elim (count_cases s.low_locked) [
  | inl empty ↦ inr (until_locked s s.low v refl m empty)
  | inr (_, e) ↦ inr (_, main_locked m e)
]
enabled s creates_high v m = inr (_, main_creates_high m)
enabled s waits_ready v m = elim (count_cases s.high_ready) [
  | inl empty ↦ inr (until_ready s s.high v refl m empty)
  | inr (_, e) ↦ inr (_, main_ready m e)
]
enabled s creates_med v m = inr (_, main_creates_med m)
enabled s waits_done v m = elim (count_cases s.high_done) [
  | inl empty ↦ inr (until_done s s.high v refl m empty)
  | inr (_, e) ↦ inr (_, main_done m e)
]
enabled s returned v m = let (w, e) = has_printed s s.high v refl m in inl (m, w, e)

-- `t` comes after `s`.
abbrev pub After : State → State → Type 0
After t s = (s.main ≢ returned) × Step s t

-- In every reachable state `main` has returned and the high thread has printed its figure, or some
-- thread can take a step; and no sequence of steps goes on for ever.
pub measures :
    {s : State}
    → Reach s
    → (((s.main ≡ returned) × (w : ℕ) × (s.printed ≡ some w)) ⊎ ((t : State) × Step s t))
      × Acc After s
measures {s} r = (
  enabled s s.main (Reach-Inv r) refl,
  descent-Acc After Reach rank
      (λ s t r (running, st). (Reach.next r running st, descends st (Reach-Inv r))) s r,
)
