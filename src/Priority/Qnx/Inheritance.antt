-- ===== src/Priority/Qnx/Inheritance.antt =====
-- qnx_priority_inversion.c with explicit attributes: priority inheritance keeps the medium thread from
-- running while the high one waits.
use microkernel_benchmark.Prelude.{
  ◌≡◌, refl, sym, subst, ◌⊎◌, inl, inr, arith, some, Bool, true, false,
}
use microkernel_benchmark.Prelude.Int.{ℤ, ◌≤ℤ◌, -ℤ_parts}
use microkernel_benchmark.Policy.{Policy, is_sporadic}
use microkernel_benchmark.Priority.{Owner, free, low_owns, high_owns}
use microkernel_benchmark.Priority.Setup.{qnx_threads}
use microkernel_benchmark.Priority.Dispatch.{Thread, low, med, high, Allowed, first}
use microkernel_benchmark.Priority.Qnx.{
  Low, posted, High, ready, holding, measured, unlocked, Med, State, Step, main_creates_low,
  main_locked, main_creates_high, main_ready, main_creates_med, main_done, low_locks, low_posts,
  low_starts, low_unlocks, high_posts, high_reads, high_locks, high_measures, high_unlocks,
  high_finishes, med_starts, med_finishes,
}
use microkernel_benchmark.Priority.Qnx.Order.{
  low_in, high_in, high_posted, high_through, Inv, Reach-Inv,
}
use microkernel_benchmark.Priority.Mutex.{owned_low, owned_high}
use microkernel_benchmark.Priority.Qnx.Dispatch.{
  mover, LowReady, MedReady, HighReady, Ready, blocks, prio, Run, begun, goes_on, Run-Reach,
}

module _ (creator pmax : ℤ) (policy : Policy) (plainly : is_sporadic policy ≡ false) where
  high_over_med :
      (b : Bool) → prio false creator pmax policy b high ≤ℤ prio false creator pmax policy b med → ⊥
  unfolding qnx_threads
  high_over_med b = rw plainly (λ h. omega (arith, -ℤ_parts))

  low_over_med :
      prio false creator pmax policy true low ≤ℤ prio false creator pmax policy true med → ⊥
  unfolding qnx_threads
  low_over_med = rw plainly (λ h. omega (arith, -ℤ_parts))

-- The medium thread is not there or has not run.
abbrev pub IsIdle : Med → Type 0
IsIdle Med.absent = Unit
IsIdle Med.starting = Unit
IsIdle _ = ⊥

-- Ready, where the medium thread is.
abbrev Could : Low → High → Owner → Thread → Type 0
Could l h o low = LowReady l o
Could l h o med = Unit
Could l h o high = HighReady h o

abbrev Holds : Low → Type 0
Holds Low.locked = Unit
Holds posted = Unit
Holds (Low.spinning start) = Unit
Holds _ = ⊥

Holds-ready : (l : Low) (o : Owner) → Holds l → LowReady l o
Holds-ready Low.locked o h = tt
Holds-ready posted o h = tt
Holds-ready (Low.spinning start) o h = tt
Holds-ready Low.absent o h = absurd h
Holds-ready Low.locking o h = absurd h
Holds-ready (Low.finished start) o h = absurd h

owner-Holds : (l : Low) (o : Owner) → owned_low o ≡ low_in l → o ≡ low_owns → Holds l
owner-Holds Low.locked o e f = tt
owner-Holds posted o e f = tt
owner-Holds (Low.spinning start) o e f = tt
owner-Holds Low.absent o e f = absurd (ground arith)
owner-Holds Low.locking o e f = absurd (ground arith)
owner-Holds (Low.finished start) o e f = absurd (ground arith)

module _ (creator pmax : ℤ) (policy : Policy) (plainly : is_sporadic policy ≡ false) where
  -- The medium thread could run: then the high one is through, or a thread of its priority is ready.
  kept_out :
      (h : High) (o : Owner) (l : Low)
      → owned_low o ≡ low_in l
      → owned_high o ≡ high_in h
      → high_posted h ≡ 1
      → Allowed (prio false creator pmax policy (blocks h o)) (Could l h o) (some med)
      → h ≡ High.finished
  kept_out High.finished o l el eh p a = refl
  kept_out High.absent o l el eh p a = absurd (omega arith)
  kept_out High.starting o l el eh p a = absurd (omega arith)
  kept_out ready o l el eh p a =
      absurd (high_over_med creator pmax policy plainly (blocks ready o) (a.unbeaten high tt))
  kept_out (holding t0) o l el eh p a =
      absurd
        (high_over_med creator pmax policy plainly (blocks (holding t0) o) (a.unbeaten high tt))
  kept_out (measured t0 t1) o l el eh p a =
      absurd
        (high_over_med creator pmax policy plainly (blocks (measured t0 t1) o) (a.unbeaten high tt))
  kept_out unlocked o l el eh p a =
      absurd (high_over_med creator pmax policy plainly (blocks unlocked o) (a.unbeaten high tt))
  kept_out (High.locking t0) free l el eh p a =
      absurd (high_over_med creator pmax policy plainly false (a.unbeaten high refl))
  kept_out (High.locking t0) low_owns l el eh p a = absurd (
      low_over_med creator pmax policy plainly
        (a.unbeaten low (Holds-ready l low_owns (owner-Holds l low_owns el refl))))
  kept_out (High.locking t0) high_owns l el eh p a = absurd (ground arith)

  waits_its_turn :
      {s : State}
      → Inv s
      → s.med ≡ Med.starting
      → Allowed (prio false creator pmax policy (blocks s.high s.mutex)) (Ready s) (some med)
      → s.high ≡ High.finished
  waits_its_turn {s} v e a = kept_out s.high s.mutex s.low v.mutex_low v.mutex_high (ground arith) (
      first (λ r. a.unbeaten low r) (λ r. a.unbeaten med (subst MedReady (sym e) tt))
        (λ r. a.unbeaten high r))

  idle-Step :
      {s t : State} (st : Step s t)
      → Inv s
      → Allowed (prio false creator pmax policy (blocks s.high s.mutex)) (Ready s) (mover st)
      → (high_through s.high ≡ 0 → IsIdle s.med)
      → high_through t.high ≡ 0
      → IsIdle t.med
  idle-Step (main_creates_low e) v a i = i
  idle-Step (main_locked e f) v a i = i
  idle-Step (main_creates_high e) v a i = λ n. i (ground arith)
  idle-Step (main_ready e f) v a i = i
  idle-Step (main_creates_med e) v a i = λ n. tt
  idle-Step (main_done e f) v a i = i
  idle-Step (low_locks e f) v a i = i
  idle-Step (low_posts e) v a i = i
  idle-Step (low_starts e f) v a i = i
  idle-Step (low_unlocks e f g) v a i = i
  idle-Step (high_posts e) v a i = λ n. i (ground arith)
  idle-Step (high_reads e f) v a i = λ n. i (ground arith)
  idle-Step (high_locks e f) v a i = λ n. i (ground arith)
  idle-Step (high_measures e f) v a i = λ n. i (ground arith)
  idle-Step (high_unlocks e) v a i = λ n. i (ground arith)
  idle-Step (high_finishes e) v a i = λ n. absurd (omega arith)
  idle-Step (med_starts e f) v a i = λ n. absurd (ground (arith, waits_its_turn v e a))
  idle-Step (med_finishes e f g) v a i = λ n. absurd (ground (arith, i n))

idle :
    {creator pmax : ℤ} {policy : Policy} {s : State}
    → is_sporadic policy ≡ false
    → Run false creator pmax policy s
    → high_through s.high ≡ 0
    → IsIdle s.med
idle plainly begun n = tt
idle {creator} {pmax} {policy} plainly (goes_on r running st a) n =
    idle-Step creator pmax policy plainly st (Reach-Inv (Run-Reach r)) a (idle plainly r) n

through_or_not : (h : High) → (h ≡ High.finished) ⊎ (high_through h ≡ 0)
through_or_not High.finished = inl refl
through_or_not High.absent = inr refl
through_or_not High.starting = inr refl
through_or_not ready = inr refl
through_or_not (High.locking t0) = inr refl
through_or_not (holding t0) = inr refl
through_or_not (measured t0 t1) = inr refl
through_or_not unlocked = inr refl

sort : (m : Med) → IsIdle m → (m ≡ Med.absent) ⊎ (m ≡ Med.starting)
sort Med.absent i = inl refl
sort Med.starting i = inr refl
sort (Med.spinning start) i = absurd i
sort Med.finished i = absurd i

-- The medium thread is not there or has not run, unless the high one is through.
abbrev pub IsKeptOut : State → Type 0
IsKeptOut s = (s.high ≡ High.finished) ⊎ ((s.med ≡ Med.absent) ⊎ (s.med ≡ Med.starting))

-- With priority inheritance and explicit attributes, and a policy that is not sporadic: in every
-- run that the scheduler allows, as long as the high thread is not through, the medium one has not
-- been created or has not run.
pub no_inversion :
    {creator pmax : ℤ} {policy : Policy} {s : State}
    → is_sporadic policy ≡ false
    → Run false creator pmax policy s
    → IsKeptOut s
no_inversion {s = s} plainly r = elim (through_or_not s.high) [
  | inl e ↦ inl e
  | inr n ↦ inr (sort s.med (idle plainly r n))
]
