-- ===== src/Ipc/TwoQueues/Teardown.antt =====
-- The end of ipc_mq_latency.c: the parent closes and removes both queues, kills the child and waits for it.
-- The child may end by itself at any time.
use mathlib.Core.WellFounded.{Acc}
use microkernel_benchmark.Prelude.{ℕ, ◌+◌, ◌<◌, ◌≡◌, refl, ◌⊎◌, inl, inr, arith, Bool, true, false}
use microkernel_benchmark.Prelude.Descent.{descent-Acc}

-- Where the parent stands behind the report.
pub data Tail : Type 0 where
  closing : Tail
  removing : Tail
  killing : Tail
  awaiting : Tail
  returned : Tail

pub data Child : Type 0 where
  running : Child
  ended : Child  -- by itself or by SIGKILL, and not yet waited for
  reaped : Child

pub record State : Type 0 where
  pub tail : Tail
  pub child : Child
  pub ptoc_open : Bool
  pub ctop_open : Bool
  pub ptoc_linked : Bool
  pub ctop_linked : Bool

abbrev pub init : Child → State
init child = record {
  tail = closing;
  child = child;
  ptoc_open = true;
  ctop_open = true;
  ptoc_linked = true;
  ctop_linked = true;
}

pub data Step (s : State) : State → Type 0 where
  close :
      s.tail ≡ closing → Step s (record s { tail = removing; ptoc_open = false; ctop_open = false })
  remove :
      s.tail ≡ removing
      → Step s (record s { tail = killing; ptoc_linked = false; ctop_linked = false })
  kill_running :
      s.tail ≡ killing → s.child ≡ running → Step s (record s { tail = awaiting; child = ended })
  kill_ended : s.tail ≡ killing → s.child ≡ ended → Step s (record s { tail = awaiting })
  await :
      s.tail ≡ awaiting → s.child ≡ ended → Step s (record s { tail = returned; child = reaped })
  end : s.child ≡ running → Step s (record s { child = ended })

pub data Reach (s : State) : State → Type 0 where
  here : Reach s s
  next : {t u : State} → Reach s t → Step t u → Reach s u

-- What the parent has done when it stands there.
abbrev Place : Tail → State → Type 0
Place closing s = (s.child ≡ running) ⊎ (s.child ≡ ended)
Place removing s =
    ((s.child ≡ running) ⊎ (s.child ≡ ended)) × (s.ptoc_open ≡ false) × (s.ctop_open ≡ false)
Place killing s =
    ((s.child ≡ running) ⊎ (s.child ≡ ended))
    × (s.ptoc_open ≡ false)
    × (s.ctop_open ≡ false)
    × (s.ptoc_linked ≡ false)
    × (s.ctop_linked ≡ false)
Place awaiting s =
    (s.child ≡ ended)
    × (s.ptoc_open ≡ false)
    × (s.ctop_open ≡ false)
    × (s.ptoc_linked ≡ false)
    × (s.ctop_linked ≡ false)
Place returned s =
    (s.child ≡ reaped)
    × (s.ptoc_open ≡ false)
    × (s.ctop_open ≡ false)
    × (s.ptoc_linked ≡ false)
    × (s.ctop_linked ≡ false)

Step-Place : {s t : State} → Step s t → Place s.tail s → Place t.tail t
Step-Place (close e) v = ground arith
Step-Place (remove e) v = ground arith
Step-Place (kill_running e f) v = ground arith
Step-Place (kill_ended e f) v = ground arith
Step-Place (await e f) v = ground arith
Step-Place {s} (end e) v = ground arith

Reach-Place : {s t : State} → Reach s t → Place s.tail s → Place t.tail t
Reach-Place here v = v
Reach-Place (next r st) v = Step-Place st (Reach-Place r v)

abbrev rank_tail : Tail → ℕ
rank_tail closing = 4
rank_tail removing = 3
rank_tail killing = 2
rank_tail awaiting = 1
rank_tail returned = 0

abbrev rank_child : Child → ℕ
rank_child running = 1
rank_child _ = 0

abbrev rank : State → ℕ
rank s = rank_tail s.tail + rank_child s.child

descends : {s t : State} → Step s t → rank t < rank s
descends (close e) = ground arith
descends (remove e) = ground arith
descends (kill_running e f) = ground arith
descends (kill_ended e f) = ground arith
descends (await e f) = ground arith
descends (end e) = ground arith

-- `t` comes after `s`.
abbrev pub After : State → State → Type 0
After t s = Step s t

-- The parent has returned, the child is gone, and both queues are closed and removed.
pub record IsCleared (s : State) : Type 0 where
  pub returns : s.tail ≡ returned
  pub child_gone : s.child ≡ reaped
  pub closed : (s.ptoc_open ≡ false) × (s.ctop_open ≡ false)
  pub removed : (s.ptoc_linked ≡ false) × (s.ctop_linked ≡ false)

enabled : (s : State) (m : Tail) → s.tail ≡ m → Place m s → IsCleared s ⊎ ((t : State) × Step s t)
enabled s closing m v = inr (_, close m)
enabled s removing m v = inr (_, remove m)
enabled s killing m (inl runs, _, _, _, _) = inr (_, kill_running m runs)
enabled s killing m (inr over, _, _, _, _) = inr (_, kill_ended m over)
enabled s awaiting m (over, _, _, _, _) = inr (_, await m over)
enabled s returned m (gone, a, b, c, d) =
    inl (record { returns = m; child_gone = gone; closed = (a, b); removed = (c, d) })

-- Whether the child still runs behind the report or has ended: in every state that is reached the parent
-- has returned, the child is gone and both queues are closed and removed, or some step can be taken; and no
-- sequence of steps goes on for ever.
pub clears_up :
    {child : Child} {s : State}
    → (child ≡ running) ⊎ (child ≡ ended)
    → Reach (init child) s
    → (IsCleared s ⊎ ((t : State) × Step s t)) × Acc After s
clears_up {s = s} c r = (
  enabled s s.tail refl (Reach-Place r c),
  descent-Acc After (λ s. Unit) rank (λ s t _ st. (tt, descends st)) s tt,
)
