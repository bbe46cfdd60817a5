-- ===== src/Fairness/Runs/Progress.antt =====
-- That the parent comes to an end: it waits for its children before it reads, and each pipe holds
-- what its child has written.
use mathlib.Core.WellFounded.{Acc}
use native.Mathlib.Decide.{dec_lt}
use microkernel_benchmark.Prelude.{
  ℕ, zero, suc, ◌+◌, ◌-◌, ◌*◌, ◌<◌, ◌≤◌, ◌≡◌, refl, ap, subst, ◌⊎◌, inl, inr, arith, none, some,
  List, [], ◌∷◌, ◌++◌, All, get_elem?, set, length, sum_by, sum_by-append, sum_by-set, sum_by-lt,
  drop, elem_at,
}
use microkernel_benchmark.Prelude.Descent.{descent-Acc}
use microkernel_benchmark.CString.{decimal}
use microkernel_benchmark.Fairness.Runs.{
  Child, counting, writing, ended, reaped, Slot, forked, IsGone, counts, count_of, set_count,
  Parent, piping, forking, waiting, reading, returned, failed, State, Step, pipe_made, pipe_refused,
  child_forked, fork_refused, all_forked, end_closed, all_closed, child_waited, no_child,
  all_waited, count_read, report_printed, time_over, clock_fails, counter_written, write_fails,
  child_ends, Reach, here, next,
}
use microkernel_benchmark.Fairness.Runs.Slots.{reaps, reaping, ReadTo}
use microkernel_benchmark.Fairness.Runs.Agreement.{Place, Reach-Place}

-- The steps that are left to a child and to the parent.
abbrev child_rank : Child → ℕ
child_rank counting = 4
child_rank (writing n) = 3
child_rank (Child.closing o) = 2
child_rank (ended o) = 1
child_rank (reaped o) = 0

abbrev slot_rank : Slot → ℕ
slot_rank x = child_rank x.child

abbrev sent : Slot → ℕ → Slot
sent x n = record x { child = Child.closing (some n); content = x.content ++ decimal n }

-- A child goes on from the stage `c`.
child_descends :
    (s : State) (j : ℕ) (x y : Slot) (c : Child)
    → get_elem? s.slots j ≡ some x
    → x.child ≡ c
    → slot_rank y < child_rank c
    → sum_by slot_rank (set s.slots j y) < sum_by slot_rank s.slots
child_descends s j x y c at e lt =
    omega (arith, sum_by-set slot_rank s.slots j y at, ap child_rank e)

same_rank :
    (s : State) (j : ℕ) (x : Slot)
    → get_elem? s.slots j ≡ some x
    → sum_by slot_rank (set s.slots j (set_count x)) ≡ sum_by slot_rank s.slots
same_rank s j x at = omega (arith, sum_by-set slot_rank s.slots j (set_count x) at)

-- No child has a write end open when the parent reads.
all-IsGone : (i : ℕ) (xs : List Slot) → ReadTo i xs → All IsGone (drop i xs)
all-IsGone zero [] r = tt
all-IsGone zero (x ∷ xs) ((o, e, _, _), r) = ((o, inr e), all-IsGone zero xs r)
all-IsGone (suc i) [] r = tt
all-IsGone (suc i) (x ∷ xs) (c, r) = all-IsGone i xs r

first_count : (xs : List Slot) → 0 < length xs → (c : ℕ) × (cs : List ℕ) × (counts xs ≡ c ∷ cs)
first_count [] h = absurd (omega arith)
first_count (x ∷ xs) h = (count_of x.count, counts xs, refl)

abbrev pub Over : Parent → Type 0
Over m = (m ≡ returned) ⊎ (m ≡ failed)

module _ (procs : ℕ) where
  abbrev parent_rank : Parent → ℕ
  parent_rank (piping i) = 7 * (procs - i) + 4 * procs + 11
  parent_rank (forking i) = 7 * (procs - i) + 4 * procs + 10
  parent_rank (Parent.closing i) = (procs - i) + 3 * procs + 8
  parent_rank (waiting i) = (procs - i) + 2 * procs + 5
  parent_rank (reading i) = (procs - i) + 1
  parent_rank returned = 0
  parent_rank failed = 0

  abbrev rank : State → ℕ
  rank s = parent_rank s.parent + sum_by slot_rank s.slots

  -- `forking i` is reached below the number of processes only.
  abbrev Below : Parent → Type 0
  Below (forking i) = i < procs
  Below _ = Unit

  descends : {s t : State} → Step procs s t → Below s.parent → rank t < rank s
  descends {s} (pipe_made e lt) b = omega (arith, ap parent_rank e)
  descends {s} (pipe_refused e lt) b = omega (arith, ap parent_rank e)
  descends {s} (child_forked {i} e) b =
      let lt : i < procs = subst Below e b in
      omega (arith, ap parent_rank e, sum_by-append slot_rank s.slots (forked ∷ []))
  descends {s} (fork_refused e) b = omega (arith, ap parent_rank e)
  descends {s} (all_forked e ge) b = omega (arith, ap parent_rank e)
  descends {s} (end_closed e lt) b = omega (arith, ap parent_rank e)
  descends {s} (all_closed e ge) b = omega (arith, ap parent_rank e)
  descends {s} (child_waited j x o e lt at c) b = omega (
    arith,
    ap parent_rank e,
    child_descends s j x (record x { child = reaped o }) (ended o) at c (omega arith),
  )
  descends {s} (no_child e lt all) b = omega (arith, ap parent_rank e)
  descends {s} (all_waited e ge) b = omega (arith, ap parent_rank e)
  descends {s} (count_read {i} x e lt at open_) b =
      omega (arith, ap parent_rank e, same_rank s i x at)
  descends {s} (report_printed c cs e ge q) b = omega (arith, ap parent_rank e)
  descends {s} (time_over j n x at c fits) b =
      omega
        (arith, child_descends s j x (record x { child = writing n }) counting at c (omega arith))
  descends {s} (clock_fails j x at c) b =
      omega
        (arith, child_descends s j x (record x { child = ended none }) counting at c (omega arith))
  descends {s} (counter_written j n x at c) b =
      omega (arith, child_descends s j x (sent x n) (writing n) at c (omega arith))
  descends {s} (write_fails j n x at c) b = omega (
    arith,
    child_descends s j x (record x { child = Child.closing none }) (writing n) at c (omega arith),
  )
  descends {s} (child_ends j x o at c) b = omega (
    arith,
    child_descends s j x (record x { child = ended o }) (Child.closing o) at c (omega arith),
  )

  below : (m : Parent) (s : State) → Place procs m s → Below m
  below (forking i) s (_, _, _, lt) = lt
  below (piping i) s v = tt
  below (Parent.closing i) s v = tt
  below (waiting i) s v = tt
  below (reading i) s v = tt
  below returned s v = tt
  below failed s v = tt

  -- The parent has closed its write ends when it waits and reads.
  abbrev Closes : Parent → ℕ → Type 0
  Closes (Parent.closing i) closed = i ≤ closed
  Closes (waiting i) closed = procs ≤ closed
  Closes (reading i) closed = procs ≤ closed
  Closes _ closed = Unit

  Step-Closes : {s t : State} → Step procs s t → Closes s.parent s.closed → Closes t.parent t.closed
  Step-Closes (pipe_made e lt) c = tt
  Step-Closes (pipe_refused e lt) c = tt
  Step-Closes (child_forked e) c = tt
  Step-Closes (fork_refused e) c = tt
  Step-Closes (all_forked e ge) c = omega arith
  Step-Closes (end_closed e lt) c = omega arith
  Step-Closes (all_closed e ge) c = ground arith
  Step-Closes (child_waited j x o e lt at d) c = ground arith
  Step-Closes (no_child e lt all) c = ground arith
  Step-Closes (all_waited e ge) c = ground arith
  Step-Closes (count_read x e lt at open_) c = ground arith
  Step-Closes (report_printed d ds e ge q) c = tt
  Step-Closes (time_over j n x at d fits) c = c
  Step-Closes (clock_fails j x at d) c = c
  Step-Closes (counter_written j n x at d) c = c
  Step-Closes (write_fails j n x at d) c = c
  Step-Closes (child_ends j x o at d) c = c

  Reach-Closes : {s : State} → Reach procs s → Closes s.parent s.closed
  Reach-Closes here = tt
  Reach-Closes (next r st) = Step-Closes st (Reach-Closes r)

  -- `t` comes after `s`.
  abbrev pub After : State → State → Type 0
  After t s = Step procs s t

  abbrev Moves : State → Type 0
  Moves s = (t : State) × Step procs s t

  -- The parent waits, and a child has not been waited for.
  until_ended :
      (s : State) (i j : ℕ) (x : Slot) (c : Child)
      → s.parent ≡ waiting i
      → i < procs
      → get_elem? s.slots j ≡ some x
      → x.child ≡ c
      → reaping c ≡ 0
      → Moves s
  until_ended s i j x counting m lt at e h = (_, time_over j 0 x at e (omega arith))
  until_ended s i j x (writing n) m lt at e h = (_, counter_written j n x at e)
  until_ended s i j x (Child.closing o) m lt at e h = (_, child_ends j x o at e)
  until_ended s i j x (ended o) m lt at e h = (_, child_waited j x o m lt at e)
  until_ended s i j x (reaped o) m lt at e h = absurd (omega arith)

  enabled :
      0 < procs
      → (s : State) (m : Parent) → Place procs m s
      → Closes m s.closed
      → s.parent ≡ m
      → Over s.parent ⊎ Moves s
  enabled some_ s (piping i) v closed m = elim (dec_lt i procs) [
    | yes lt ↦ inr (_, pipe_made m lt)
    | no ge ↦ inr (_, all_forked m (omega arith))
  ]
  enabled some_ s (forking i) v closed m = inr (_, child_forked m)
  enabled some_ s (Parent.closing i) v closed m = elim (dec_lt i procs) [
    | yes lt ↦ inr (_, end_closed m lt)
    | no ge ↦ inr (_, all_closed m (omega arith))
  ]
  enabled some_ s (waiting i) (u, r, l, le) closed m = elim (dec_lt i procs) [
    | yes lt ↦
        let (j, x, at, h) = sum_by-lt reaps s.slots (omega arith) in
        inr (until_ended s i j x x.child m lt at refl h)
    | no ge ↦ inr (_, all_waited m (omega arith))
  ]
  enabled some_ s (reading i) (l, r, le) closed m = elim (dec_lt i procs) [
    | yes lt ↦
        let (x, at) = elem_at s.slots i (omega arith) in
        inr (_, count_read x m lt at (inr (omega arith, all-IsGone i s.slots r)))
    | no ge ↦
        let (c, cs, e) = first_count s.slots (omega arith) in
        inr (_, report_printed c cs m (omega arith) e)
  ]
  enabled some_ s returned v closed m = inl (inl m)
  enabled some_ s failed v closed m = inl (inr m)

  -- With at least one child, in every reachable state the parent has returned or failed, or the parent
  -- or a child can take a step; and no sequence of steps goes on for ever.
  pub run_ends :
      {s : State}
      → 0 < procs
      → Reach procs s
      → (Over s.parent ⊎ ((t : State) × Step procs s t)) × Acc After s
  run_ends {s} some_ r = (
    enabled some_ s s.parent (Reach-Place procs r) (Reach-Closes r) refl,
    descent-Acc After (Reach procs) rank
        (λ s t r st. (next r st, descends st (below s.parent s (Reach-Place procs r)))) s r,
  )
