-- ===== src/ProcessSwitch/Progress.antt =====
-- process_ctx_switch.c: the steps that its two processes can take, and what they have left to do.
use mathlib.Core.WellFounded.{Acc}
use native.Mathlib.Decide.{dec_lt}
use microkernel_benchmark.Prelude.{
  ℕ, ◌+◌, ◌-◌, ◌*◌, ◌<◌, ◌≡◌, refl, ◌⊎◌, inl, inr, arith, true, Bool-cases, List-cases, [],
}
use microkernel_benchmark.Prelude.Descent.{descent-Acc}
use microkernel_benchmark.ProcessSwitch.{
  Parent, waiting, returned, write_failed, read_failed, Child, exited, failed, State, init,
  child_gone, parent_gone, Step, parent_write, parent_sigpipe, parent_read, parent_end_of_file,
  parent_report, parent_return, child_read, child_end_of_file, child_write, child_sigpipe,
  child_exit, Reach,
}
use microkernel_benchmark.ProcessSwitch.Echo.{Inv, Reach-Inv}

module _ (n : ℕ) where
  -- What the two processes have left to do.
  abbrev pub parent_rank : Parent → ℕ
  parent_rank (Parent.writing i) = 3 * (n - i) + 3
  parent_rank (Parent.reading i) = 3 * (n - i) + 2
  parent_rank (waiting i) = 1
  parent_rank _ = 0

  abbrev pub child_rank : Child → ℕ
  child_rank (Child.reading j) = 2 * (n - j) + 1
  child_rank (Child.writing j) = 2 * (n - j)
  child_rank _ = 0

  abbrev pub rank : State → ℕ
  rank s = parent_rank s.parent + child_rank s.child

  descends : {s t : State} → Step n s t → Inv n s → rank t < rank s
  descends (parent_write e lt live) v = ground arith
  descends (parent_sigpipe e lt gone) v = ground arith
  descends (parent_read e q) v = ground arith
  descends (parent_end_of_file e q gone) v = ground arith
  descends (parent_report e le) v = ground arith
  descends (parent_return e gone) v = ground arith
  descends (child_read e lt q) v = ground arith
  descends (child_end_of_file e lt q gone) v = ground arith
  descends (child_write e live) v = ground arith
  descends (child_sigpipe e gone) v = ground arith
  descends (child_exit e le) v = ground arith

  abbrev Moves : State → Type 0
  Moves s = (t : State) × Step n s t

  -- A child whose parent has ended.
  orphan :
      (s : State) (c : Child)
      → Inv n s
      → s.child ≡ c
      → parent_gone s.parent ≡ true
      → (child_gone s.child ≡ true) ⊎ Moves s
  orphan s (Child.reading j) v ec gone = elim (dec_lt j n) [
    | no ge ↦ inr (_, child_exit ec (omega arith))
    | yes lt ↦ elim (List-cases s.p2c) [
      | inl empty ↦ inr (_, child_end_of_file ec lt empty gone)
      | inr (b, rest, q) ↦ inr (_, child_read ec lt q)
    ]
  ]
  orphan s (Child.writing j) v ec gone = inr (_, child_sigpipe ec gone)
  orphan s (exited j) v ec gone = inl (ground arith)
  orphan s (failed j) v ec gone = inl (ground arith)

  -- A parent that waits for the reply.
  caller :
      (s : State) (c : Child) {i : ℕ}
      → Inv n s
      → s.parent ≡ Parent.reading i
      → s.child ≡ c
      → s.c2p ≡ []
      → Moves s
  caller s (Child.reading j) v ep ec none = elim (List-cases s.p2c) [
    | inl empty ↦ absurd (ground (arith, v.kept))
    | inr (b, rest, q) ↦ (_, child_read ec (ground arith) q)
  ]
  caller s (Child.writing j) v ep ec none = (_, child_write ec (ground arith))
  caller s (exited j) v ep ec none = (_, parent_end_of_file ep none (ground arith))
  caller s (failed j) v ep ec none = (_, parent_end_of_file ep none (ground arith))

  -- A parent that waits for the child to end.
  waiter : (s : State) (c : Child) {i : ℕ} → Inv n s → s.parent ≡ waiting i → s.child ≡ c → Moves s
  waiter s (Child.reading j) v ep ec = (_, child_exit ec (ground arith))
  waiter s (Child.writing j) v ep ec = absurd (ground arith)
  waiter s (exited j) v ep ec = (_, parent_return ep (ground arith))
  waiter s (failed j) v ep ec = (_, parent_return ep (ground arith))

  abbrev BothGone : State → Type 0
  BothGone s = (parent_gone s.parent ≡ true) × (child_gone s.child ≡ true)

  after_parent : (s : State) → Inv n s → parent_gone s.parent ≡ true → BothGone s ⊎ Moves s
  after_parent s v gone = elim (orphan s s.child v refl gone) [
    | inl ended ↦ inl (gone, ended)
    | inr moves ↦ inr moves
  ]

  enabled : (s : State) (p : Parent) → Inv n s → s.parent ≡ p → BothGone s ⊎ Moves s
  enabled s (Parent.writing i) v ep = elim (dec_lt i n) [
    | no ge ↦ inr (_, parent_report ep (omega arith))
    | yes lt ↦ elim (Bool-cases (child_gone s.child)) [
      | inl gone ↦ inr (_, parent_sigpipe ep lt gone)
      | inr live ↦ inr (_, parent_write ep lt live)
    ]
  ]
  enabled s (Parent.reading i) v ep = elim (List-cases s.c2p) [
    | inl none ↦ inr (caller s s.child v ep refl none)
    | inr (b, rest, q) ↦ inr (_, parent_read ep q)
  ]
  enabled s (waiting i) v ep = inr (waiter s s.child v ep refl)
  enabled s (returned i) v ep = after_parent s v (ground arith)
  enabled s (write_failed i) v ep = after_parent s v (ground arith)
  enabled s (read_failed i) v ep = after_parent s v (ground arith)

  -- `t` comes after `s`.
  abbrev pub After : State → State → Type 0
  After t s = Step n s t

  -- In every reachable state, also after calls that failed: both processes have ended or one of
  -- them can take a step, and no sequence of steps goes on for ever.
  pub always_ends :
      {garbage : ℕ} {s : State}
      → Reach n (init garbage) s
      → (((parent_gone s.parent ≡ true) × (child_gone s.child ≡ true)) ⊎ ((t : State) × Step n s t))
        × Acc After s
  always_ends {garbage} {s} r = (
    enabled s s.parent (Reach-Inv n r) refl,
    descent-Acc After (Reach n (init garbage)) rank
        (λ s t r st. (Reach.next r st, descends st (Reach-Inv n r))) s r,
  )
