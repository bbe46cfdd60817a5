-- ===== src/Threads/Counting/Settling.antt =====
-- thread_fairness.c once the flag is set.
use mathlib.Core.WellFounded.{Acc}
use native.Mathlib.Decide.{ℕ_discrete, dec_lt}
use microkernel_benchmark.Prelude.{
  ℕ, ◌+◌, ◌-◌, ◌%◌, ◌^◌, ◌<◌, ◌≤◌, ◌≡◌, ◌≢◌, refl, sym, ap, subst, sum_by, sum_by-set, ◌∙◌, arith,
  ◌⊎◌, inl, inr, [], ◌∷◌, length, length-append, length-set, get_elem?, elem_at, set, some, true,
  false,
}
use microkernel_benchmark.Prelude.Descent.{descent-Acc}
use microkernel_benchmark.Threads.Counting.{
  Thread, testing, counting, exited, Main, creating, sleeping, joining, returned, failed, State,
  init, Step, create, create_fails, sleep, set_stop, join, print, see_clear, see_stop, count, Steps,
  here, next,
}
use microkernel_benchmark.Threads.Counting.Counts.{
  settled, settled_report, settled_report-set, Exited, report-settled, Exited-set, weight,
}

module _ (n : ℕ) where
  abbrev Place : Main → State → Type 0
  Place (creating i) s = (length s.threads ≡ i) × (i ≤ n) × (s.stop ≡ false)
  Place sleeping s = (length s.threads ≡ n) × (s.stop ≡ false)
  Place (joining i) s = (length s.threads ≡ n) × (s.stop ≡ true) × (i ≤ n) × Exited i s.threads
  Place returned s =
      (length s.threads ≡ n)
      × (s.stop ≡ true)
      × Exited n s.threads
      × (s.printed ≡ settled_report 0 s.threads)
  Place failed s = s.stop ≡ false

  -- A thread that goes on leaves `main` where it is.
  Place-set :
      (m : Main) (s : State) (i : ℕ) {t : Thread} (u : Thread)
      → get_elem? s.threads i ≡ some t
      → ((k : ℕ) → t ≢ exited k)
      → settled u ≡ settled t ⊎ (s.stop ≡ false)
      → Place m s
      → Place m (record s { threads = set s.threads i u })
  Place-set (creating j) s i u e going same (l, le, h) = (length-set s.threads i u ∙ l, le, h)
  Place-set sleeping s i u e going same (l, h) = (length-set s.threads i u ∙ l, h)
  Place-set (joining j) s i u e going same (l, h, le, f) =
      (length-set s.threads i u ∙ l, h, le, Exited-set j i s.threads u e going f)
  Place-set returned s i u e going same (l, h, f, p) = (
    length-set s.threads i u ∙ l,
    h,
    Exited-set n i s.threads u e going f,
    elim same [
      | inl eq ↦ p ∙ sym (settled_report-set i 0 s.threads u e eq)
      | inr clear ↦ absurd (ground arith)
    ],
  )
  Place-set failed s i u e going same h = h

  Step-Place : {s t : State} → Step n s t → Place s.main s → Place t.main t
  Step-Place {s} (create e lt) v =
      let (l, le, h) = subst (λ m. Place m s) e v in
      (length-append s.threads (testing 0 ∷ []) ∙ ap (λ k. k + 1) l, omega arith, h)
  Step-Place {s} (create_fails e lt) v = let (l, le, h) = subst (λ m. Place m s) e v in h
  Step-Place {s} (sleep e ge) v = let (l, le, h) = subst (λ m. Place m s) e v in (omega arith, h)
  Step-Place {s} (set_stop e) v =
      let (l, h) = subst (λ m. Place m s) e v in
      (l, refl, omega arith, λ j lt. absurd (omega arith))
  Step-Place {s} (join i k e lt x) v =
      let (l, h, le, f) = subst (λ m. Place m s) e v in
      (
        l,
        h,
        omega arith,
        λ j lt. elim (ℕ_discrete j i) [
          | yes same ↦ (k, ap (get_elem? s.threads) same ∙ x)
          | no ne ↦ f j (omega arith)
        ],
      )
  Step-Place {s} (print {i} e ge) v =
      let (l, h, le, f) = subst (λ m. Place m s) e v in
      let all : Exited n s.threads = λ j lt. f j (omega arith) in
      (l, h, all, report-settled 0 s.threads (λ j lt. all j (omega arith)))
  Step-Place {s} (see_clear i k e clear) v =
      Place-set s.main s i (counting k) e (λ k e. ground arith) (inr clear) v
  Step-Place {s} (see_stop i k e set_) v =
      Place-set s.main s i (exited k) e (λ k e. ground arith) (inl refl) v
  Step-Place {s} (count i k e) v = Place-set s.main s i _ e (λ k e. ground arith) (inl refl) v

  -- Between two states with the flag set.
  record Settled (s t : State) : Type 0 where
    stopped : t.stop ≡ true
    same : settled_report 0 t.threads ≡ settled_report 0 s.threads

  -- What is left to do when the flag is set.
  abbrev main_rank : Main → ℕ
  main_rank (joining i) = (n - i) + 1
  main_rank _ = 0

  abbrev rank : State → ℕ
  rank s = main_rank s.main + sum_by weight s.threads

  Step-Settled :
      {s t : State} → Step n s t → Place s.main s → s.stop ≡ true → Settled s t × (rank t < rank s)
  Step-Settled {s} (create e lt) v h =
      let (l, le, clear) = subst (λ m. Place m s) e v in absurd (ground arith)
  Step-Settled {s} (create_fails e lt) v h =
      let (l, le, clear) = subst (λ m. Place m s) e v in absurd (ground arith)
  Step-Settled {s} (sleep e ge) v h =
      let (l, le, clear) = subst (λ m. Place m s) e v in absurd (ground arith)
  Step-Settled {s} (set_stop e) v h =
      let (l, clear) = subst (λ m. Place m s) e v in absurd (ground arith)
  Step-Settled {s} (join i k e lt x) v h = (record { stopped = h; same = refl }, ground arith)
  Step-Settled {s} (print e ge) v h = (record { stopped = h; same = refl }, ground arith)
  Step-Settled {s} (see_clear i k e clear) v h = absurd (ground arith)
  Step-Settled {s} (see_stop i k e set_) v h = (
    record { stopped = h; same = settled_report-set i 0 s.threads _ e refl },
    omega (arith, sum_by-set weight s.threads i (exited k) e),
  )
  Step-Settled {s} (count i k e) v h = (
    record { stopped = h; same = settled_report-set i 0 s.threads _ e refl },
    omega (arith, sum_by-set weight s.threads i (testing ((k + 1) % 2 ^ 64)) e),
  )

  Steps-Place : {s t : State} → Steps n s t → Place s.main s → Place t.main t
  Steps-Place here v = v
  Steps-Place (next r alive st) v = Step-Place st (Steps-Place r v)

  Steps-Settled : {s t : State} → Steps n s t → Place s.main s → s.stop ≡ true → Settled s t
  Steps-Settled here v h = record { stopped = h; same = refl }
  Steps-Settled (next r alive st) v h =
      let f = Steps-Settled r v h in
      let (g, _) = Step-Settled st (Steps-Place r v) f.stopped in
      record { stopped = g.stopped; same = g.same ∙ f.same }

  -- `t` comes after `s`.
  abbrev pub After : State → State → Type 0
  After t s = Step n s t

  goes_down :
      (s t : State)
      → Place s.main s × (s.stop ≡ true)
      → After t s
      → (Place t.main t × (t.stop ≡ true)) × (rank t < rank s)
  goes_down s t (v, h) st =
      let (f, less) = Step-Settled st v h in ((Step-Place st v, f.stopped), less)

  abbrev Moves : State → Type 0
  Moves s = (t : State) × Step n s t

  -- `main` waits for thread `i`.
  until_exited :
      (s : State) (i : ℕ) (t : Thread)
      → s.stop ≡ true
      → s.main ≡ joining i
      → i < n
      → get_elem? s.threads i ≡ some t
      → Moves s
  until_exited s i (testing k) h m lt e = (_, see_stop i k e h)
  until_exited s i (counting k) h m lt e = (_, count i k e)
  until_exited s i (exited k) h m lt e = (_, join i k m lt e)

  enabled :
      (s : State) (m : Main)
      → Place m s
      → s.main ≡ m
      → s.stop ≡ true
      → ((s.main ≡ returned) × (s.printed ≡ settled_report 0 s.threads)) ⊎ Moves s
  enabled s (creating i) (l, le, clear) m h = absurd (ground arith)
  enabled s sleeping (l, clear) m h = absurd (ground arith)
  enabled s failed clear m h = absurd (ground arith)
  enabled s returned (l, _, f, p) m h = inl (m, p)
  enabled s (joining i) (l, _, le, f) m h = elim (dec_lt i n) [
    | no ge ↦ inr (_, print m (omega arith))
    | yes lt ↦ let (t, e) = elem_at s.threads i (omega arith) in inr (until_exited s i t h m lt e)
  ]

  -- Let the flag be set in a reachable state `s`, and let `t` be a state that is reached from it.
  -- Either `main` has returned and the lines printed give each thread the count that it had in `s`,
  -- and one more if it had already begun an increment there, or some step can be taken; and no
  -- sequence of steps from `t` goes on for ever.
  pub settles :
      {s t : State}
      → Steps n init s
      → s.stop ≡ true
      → Steps n s t
      → (((t.main ≡ returned) × (t.printed ≡ settled_report 0 s.threads))
          ⊎ ((u : State) × Step n t u))
        × Acc After t
  settles {s} {t} r h q =
      let v : Place s.main s = Steps-Place r (refl, omega arith, refl) in
      let w : Place t.main t = Steps-Place q v in
      let f = Steps-Settled q v h in
      (
        elim (enabled t t.main w refl f.stopped) [
          | inl (m, p) ↦ inl (m, p ∙ f.same)
          | inr moves ↦ inr moves
        ],
        descent-Acc After (λ s. Place s.main s × (s.stop ≡ true)) rank goes_down t (w, f.stopped),
      )
