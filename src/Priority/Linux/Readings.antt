-- ===== src/Priority/Linux/Readings.antt =====
-- linux_priority_inversion.c: the readings of the clock that the high thread makes in a run, as the
-- steps of the run give them, and what it prints of them.
use microkernel_benchmark.Prelude.{ℕ, ◌≤◌, ◌≡◌, refl, subst, Option, none, some}
use microkernel_benchmark.Priority.{waited_ms}
use microkernel_benchmark.Priority.Linux.{
  High, holding, measured, State, Step, main_posts_low, main_posts_med, main_posts_high, main_joins,
  low_starts, low_locks, low_reads, low_unlocks, med_starts, med_reads, med_finishes, high_starts,
  high_reads, high_locks, high_measures, high_unlocks, Reach, here, next,
}
use microkernel_benchmark.Priority.Linux.Order.{HighTimes, Inv, Reach-Inv}

-- The reading before pthread_mutex_lock, and the one behind it.
abbrev pub reads_before : {s t : State} → Step s t → Option ℕ → Option ℕ
reads_before (high_reads {now} e f) o = some now
reads_before _ o = o

abbrev pub reads_behind : {s t : State} → Step s t → Option ℕ → Option ℕ
reads_behind (high_measures {now} e f) o = some now
reads_behind _ o = o

-- The last of each in a run.
abbrev pub before_lock : {s : State} → Reach s → Option ℕ
before_lock here = none
before_lock (next r running st) = reads_before st (before_lock r)

abbrev pub behind_lock : {s : State} → Reach s → Option ℕ
behind_lock here = none
behind_lock (next r running st) = reads_behind st (behind_lock r)

-- What a run has read, and printed, where the high thread stands.
abbrev Kept : High → Option ℕ → Option ℕ → Option ℕ → Type 0
Kept (High.locking t0) a b p = a ≡ some t0
Kept (holding t0) a b p = a ≡ some t0
Kept (measured t0 t1) a b p = (a ≡ some t0) × (b ≡ some t1)
Kept High.finished a b p =
    (t0 : ℕ) × (t1 : ℕ) × (a ≡ some t0) × (b ≡ some t1) × (t0 ≤ t1) × (p ≡ some (waited_ms t0 t1))
Kept _ a b p = Unit

Step-Kept :
    {s t : State} (st : Step s t) (a b : Option ℕ)
    → Inv s
    → Kept s.high a b s.printed
    → Kept t.high (reads_before st a) (reads_behind st b) t.printed
Step-Kept (main_posts_low e) a b v k = k
Step-Kept (main_posts_med e) a b v k = k
Step-Kept (main_posts_high e) a b v k = k
Step-Kept (main_joins e f) a b v k = k
Step-Kept (low_starts e f) a b v k = k
Step-Kept (low_locks e f) a b v k = k
Step-Kept (low_reads e f) a b v k = k
Step-Kept (low_unlocks e f g) a b v k = k
Step-Kept (med_starts e f) a b v k = k
Step-Kept (med_reads e f) a b v k = k
Step-Kept (med_finishes e f g) a b v k = k
Step-Kept (high_starts e f) a b v k = tt
Step-Kept (high_reads e f) a b v k = refl
Step-Kept {s} (high_locks e f) a b v k = subst (λ h. Kept h a b s.printed) e k
Step-Kept {s} (high_measures e f) a b v k = (subst (λ h. Kept h a b s.printed) e k, refl)
Step-Kept {s} (high_unlocks {t0} {t1} e) a b v k =
    let (p, q) = subst (λ h. Kept h a b s.printed) e k in
    let (lo, hi, _) = subst (λ h. HighTimes s.clock h s.printed) e v.high_times in
    (t0, t1, p, q, lo, refl)

Reach-Kept : {s : State} (r : Reach s) → Kept s.high (before_lock r) (behind_lock r) s.printed
Reach-Kept here = tt
Reach-Kept (next r running st) =
    Step-Kept st (before_lock r) (behind_lock r) (Reach-Inv r) (Reach-Kept r)

-- What is printed when the high thread is through is of its two readings in the run.
pub printed_readings :
    {s : State} (r : Reach s)
    → s.high ≡ High.finished
    → (t0 : ℕ) × (t1 : ℕ) × (before_lock r ≡ some t0)
      × (behind_lock r ≡ some t1)
      × (t0 ≤ t1)
      × (s.printed ≡ some (waited_ms t0 t1))
printed_readings {s} r e =
    subst (λ h. Kept h (before_lock r) (behind_lock r) s.printed) e (Reach-Kept r)
