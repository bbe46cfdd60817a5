-- ===== src/Fairness/Runs/Agreement.antt =====
-- What the parent reports in any run.
use microkernel_benchmark.Prelude.{
  ℕ, suc, ◌+◌, ◌<◌, ◌≤◌, ◌≡◌, refl, sym, ap, subst, ◌∙◌, arith, some, List, [], ◌∷◌, ◌++◌, All,
  All-append, get_elem?, get_elem?-All, set, set-All, length, length-append, length-set, sum_by,
  sum_by-append, sum_by-set,
}
use microkernel_benchmark.CString.{decimal}
use microkernel_benchmark.Fairness.{message, statistics, Statistics}
use microkernel_benchmark.Fairness.Extremes.{IsStatistics, statistics-IsStatistics}
use microkernel_benchmark.Fairness.Reports.{values}
use microkernel_benchmark.Fairness.Runs.{
  Child, counting, writing, ended, reaped, Slot, forked, IsReaped, counts, set_count, Parent,
  piping, forking, waiting, reading, returned, failed, State, Step, pipe_made, pipe_refused,
  child_forked, fork_refused, all_forked, end_closed, all_closed, child_waited, no_child,
  all_waited, count_read, report_printed, time_over, clock_fails, counter_written, write_fails,
  child_ends, Reach, here, next,
}
use microkernel_benchmark.Fairness.Runs.Slots.{
  outcome, UnreadSlot, Unread, reaping, reaps, Counted, ReadTo, ReadTo-start, ReadTo-IsReaped,
  ReadTo-next, ReadTo-all, counts-values,
}

-- What a child has left behind, when it goes on from the stage `c`.
module _ (x : Slot) (c : Child) (e : x.child ≡ c) where
  at_stage : UnreadSlot x → Unread c x.content x.count
  at_stage = subst (λ k. Unread k x.content x.count) e

  stage : reaping c ≡ 0 → reaps x ≡ 0
  stage h = ap reaping e ∙ h

all-reaps : (xs : List Slot) → All IsReaped xs → sum_by reaps xs ≡ length xs
all-reaps [] h = refl
all-reaps (x ∷ xs) ((o, c), h) = omega (arith, ap reaping c, all-reaps xs h)

Counted-IsReaped : (xs : List Slot) → All Counted xs → All IsReaped xs
Counted-IsReaped [] h = tt
Counted-IsReaped (x ∷ xs) ((o, c, _, _), h) = ((o, c), Counted-IsReaped xs h)

module _ (procs : ℕ) where
  -- The report has for each child the counter that it has written, or 0 if it has written none.
  abbrev pub Reported : State → Type 0
  Reported s =
      (stats : Statistics) × IsStatistics (values (outcome s.slots) procs 0) stats
      × (s.printed ≡ some (record { counts = values (outcome s.slots) procs 0; figures = stats }))

  abbrev pub Place : Parent → State → Type 0
  Place (piping i) s =
      All UnreadSlot s.slots × (sum_by reaps s.slots ≡ 0) × (length s.slots ≡ i) × (i ≤ procs)
  Place (forking i) s =
      All UnreadSlot s.slots × (sum_by reaps s.slots ≡ 0) × (length s.slots ≡ i) × (i < procs)
  Place (Parent.closing i) s =
      All UnreadSlot s.slots × (sum_by reaps s.slots ≡ 0) × (length s.slots ≡ procs)
  Place (waiting i) s =
      All UnreadSlot s.slots × (sum_by reaps s.slots ≡ i) × (length s.slots ≡ procs) × (i ≤ procs)
  Place (reading i) s = (length s.slots ≡ procs) × ReadTo i s.slots × (i ≤ procs)
  Place returned s = (length s.slots ≡ procs) × ReadTo procs s.slots × Reported s
  Place failed s = Unit

  -- A child that goes on while the parent waits for it.
  module _ (s : State) (j : ℕ) (x y : Slot) (at : get_elem? s.slots j ≡ some x) where
    unread-set :
        (UnreadSlot x → UnreadSlot y) → All UnreadSlot s.slots → All UnreadSlot (set s.slots j y)
    unread-set f u = set-All UnreadSlot s.slots j y u (f (get_elem?-All UnreadSlot s.slots j u at))

    not_reaped : (i : ℕ) → reaps x ≡ 0 → ReadTo i s.slots → ⊥
    not_reaped i e r =
        let (o, c) = ReadTo-IsReaped i s.slots j r at in
        let one : reaps x ≡ 1 = ap reaping c in omega arith

    Place-set :
        (m : Parent)
        → reaps x ≡ 0
        → reaps y ≡ 0
        → (UnreadSlot x → UnreadSlot y)
        → Place m s
        → Place m (record s { slots = set s.slots j y })
    Place-set (piping i) ex ey f (u, r, l, le) = (
      unread-set f u,
      omega (arith, sum_by-set reaps s.slots j y at),
      length-set s.slots j y ∙ l,
      le,
    )
    Place-set (forking i) ex ey f (u, r, l, le) = (
      unread-set f u,
      omega (arith, sum_by-set reaps s.slots j y at),
      length-set s.slots j y ∙ l,
      le,
    )
    Place-set (Parent.closing i) ex ey f (u, r, l) =
        (unread-set f u, omega (arith, sum_by-set reaps s.slots j y at), length-set s.slots j y ∙ l)
    Place-set (waiting i) ex ey f (u, r, l, le) = (
      unread-set f u,
      omega (arith, sum_by-set reaps s.slots j y at),
      length-set s.slots j y ∙ l,
      le,
    )
    Place-set (reading i) ex ey f (l, r, le) = absurd (not_reaped i ex r)
    Place-set returned ex ey f (l, r, p) = absurd (not_reaped procs ex r)
    Place-set failed ex ey f v = tt

  -- What the parent prints when all counts are set.
  report-Reported :
      (s : State) (i c : ℕ) (cs : List ℕ)
      → procs ≤ i
      → length s.slots ≡ procs
      → ReadTo i s.slots
      → counts s.slots ≡ c ∷ cs
      → IsStatistics (values (outcome s.slots) procs 0) (statistics c cs)
        × ((c ∷ cs) ≡ values (outcome s.slots) procs 0)
  report-Reported s i c cs ge l r e =
      let all : All Counted s.slots = ReadTo-all i s.slots (omega arith) r in
      let same : (c ∷ cs) ≡ values (outcome s.slots) procs 0 =
        sym e
        ∙ counts-values (outcome s.slots) 0 s.slots (λ j. ap (outcome s.slots) (omega arith)) all
        ∙ ap (λ n. values (outcome s.slots) n 0) l in
      (subst (λ cs'. IsStatistics cs' (statistics c cs)) same (statistics-IsStatistics c cs), same)

  Step-Place : {s t : State} → Step procs s t → Place s.parent s → Place t.parent t
  unfolding message
  Step-Place {s} (pipe_made e lt) v =
      let (u, r, l, le) = subst (λ m. Place m s) e v in (u, r, l, lt)
  Step-Place {s} (pipe_refused e lt) v = tt
  Step-Place {s} (child_forked e) v =
      let (u, r, l, lt) = subst (λ m. Place m s) e v in
      (
        All-append UnreadSlot s.slots (forked ∷ []) u ((refl, refl), tt),
        omega (arith, sum_by-append reaps s.slots (forked ∷ [])),
        omega (arith, length-append s.slots (forked ∷ [])),
        omega arith,
      )
  Step-Place {s} (fork_refused e) v = tt
  Step-Place {s} (all_forked e ge) v =
      let (u, r, l, le) = subst (λ m. Place m s) e v in (u, r, omega arith)
  Step-Place {s} (end_closed e lt) v = subst (λ m. Place m s) e v
  Step-Place {s} (all_closed e ge) v =
      let (u, r, l) = subst (λ m. Place m s) e v in (u, r, l, omega arith)
  Step-Place {s} (child_waited j x o e lt at c) v =
      let (u, r, l, le) = subst (λ m. Place m s) e v in
      let zero_ : reaps x ≡ 0 = stage x (ended o) c refl in
      (
        unread-set s j x _ at (at_stage x (ended o) c) u,
        omega (arith, sum_by-set reaps s.slots j (record x { child = reaped o }) at),
        length-set s.slots j _ ∙ l,
        omega arith,
      )
  Step-Place {s} (no_child e lt all) v =
      let (u, r, l, le) = subst (λ m. Place m s) e v in
      absurd (omega (arith, all-reaps s.slots all))
  Step-Place {s} (all_waited e ge) v =
      let (u, r, l, le) = subst (λ m. Place m s) e v in
      (l, ReadTo-start s.slots u (omega arith), omega arith)
  Step-Place {s} (count_read {i} x e lt at open_) v =
      let (l, r, le) = subst (λ m. Place m s) e v in
      let one_more : suc i ≡ i + 1 = omega arith in
      (
        length-set s.slots i _ ∙ l,
        subst (λ k. ReadTo k (set s.slots i (set_count x))) one_more (ReadTo-next i s.slots r at),
        omega arith,
      )
  Step-Place {s} (report_printed {i} c cs e ge q) v =
      let (l, r, le) = subst (λ m. Place m s) e v in
      let last : i ≡ procs = omega arith in
      let (is, same) = report-Reported s i c cs ge l r q in
      (
        l,
        subst (λ k. ReadTo k s.slots) last r,
        (
          statistics c cs,
          is,
          ap (λ cs'. some (record { counts = cs'; figures = statistics c cs })) same,
        ),
      )
  Step-Place {s} (time_over j n x at c fits) v =
      Place-set s j x _ at s.parent (stage x counting c refl) refl
        (λ u. let (p, q) = at_stage x counting c u in (p, q, fits)) v
  Step-Place {s} (clock_fails j x at c) v =
      Place-set s j x _ at s.parent (stage x counting c refl) refl
        (λ u. let (p, q) = at_stage x counting c u in (p, q, omega arith)) v
  Step-Place {s} (counter_written j n x at c) v =
      Place-set s j x _ at s.parent (stage x (writing n) c refl) refl
        (λ u.
          let (p, q, fits) = at_stage x (writing n) c u in (ap (λ b. b ++ decimal n) p, q, fits))
        v
  Step-Place {s} (write_fails j n x at c) v =
      Place-set s j x _ at s.parent (stage x (writing n) c refl) refl
        (λ u. let (p, q, fits) = at_stage x (writing n) c u in (p, q, omega arith)) v
  Step-Place {s} (child_ends j x o at c) v =
      Place-set s j x _ at s.parent (stage x (Child.closing o) c refl) refl
        (at_stage x (Child.closing o) c) v

  pub Reach-Place : {s : State} → Reach procs s → Place s.parent s
  Reach-Place here = (tt, refl, refl, omega arith)
  Reach-Place (next r st) = Step-Place st (Reach-Place r)

  -- In every reachable state in which the parent has returned, it has printed for each child the
  -- counter that this child has written, or 0 if it has written none, with their least, their greatest
  -- and their sum modulo 2^64; and every child has ended.
  pub run-Reported :
      {s : State}
      → Reach procs s
      → s.parent ≡ returned
      → All IsReaped s.slots × (length s.slots ≡ procs) × Reported s
  run-Reported {s} r e =
      let (l, q, p) = subst (λ m. Place m s) e (Reach-Place r) in
      (Counted-IsReaped s.slots (ReadTo-all procs s.slots (omega arith) q), l, p)
