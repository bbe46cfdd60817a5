-- ===== src/Ipc/TwoQueues/Progress.antt =====
-- ipc/ipc_mq_latency.c while its calls succeed.
use microkernel_benchmark.Prelude.{
  ℕ, ◌+◌, ◌<◌, ◌≤◌, ◌≡◌, refl, ◌⊎◌, inl, inr, arith, some, List, [], ◌∷◌, length,
}
use native.Mathlib.Decide.{dec_lt}
use microkernel_benchmark.Ipc.{MessageQueue, iterations}
use microkernel_benchmark.Ipc.TwoQueues.{
  Parent, sending, receiving, reporting, Child, waiting, replying, exited, State, init, Step,
  parent_send, parent_receive, parent_finish, child_receive, child_send, child_finish, Clean,
}
use microkernel_benchmark.Ipc.TwoQueues.Behaviour.{
  parent_rounds, child_rounds, held, length-send, length-receive,
}

abbrev pub wanted : Parent → ℕ
wanted (receiving _ _) = 1
wanted _ = 0

abbrev pub InParentLoop : Parent → Type 0
InParentLoop (sending i) = i ≤ iterations
InParentLoop (receiving i _) = i < iterations
InParentLoop (reporting i) = i ≡ iterations

abbrev pub InChildLoop : Child → Type 0
InChildLoop (waiting i) = i ≤ iterations
InChildLoop (replying i) = i < iterations
InChildLoop (exited i) = i ≡ iterations

module _ (mq : MessageQueue (List ℕ)) where
  open mq use {contents}

  pub record CleanInv (s : State mq) : Type 0 where
    pub flight :
        length (contents s.ptoc) + held s.child + length (contents s.ctop) ≡ wanted s.parent
    pub counted : child_rounds s.child ≡ parent_rounds s.parent + length (contents s.ctop)
    pub parent_loop : InParentLoop s.parent
    pub child_loop : InChildLoop s.child

  Step-CleanInv : {s t : State mq} → Step mq s t → CleanInv s → CleanInv t
  Step-CleanInv {s} (parent_send start e lt) v =
      ground (arith, length-send mq s.ptoc s.parent_buffer)
  Step-CleanInv {s} (parent_receive end {m} {q} e r) v =
      ground (arith, length-receive mq s.ctop m q r)
  Step-CleanInv (parent_finish e le) v = ground arith
  Step-CleanInv {s} (child_receive {m = m} {q = q} e lt r) v =
      ground (arith, length-receive mq s.ptoc m q r)
  Step-CleanInv {s} (child_send e) v = ground (arith, length-send mq s.ctop s.child_buffer)
  Step-CleanInv (child_finish e le) v = ground arith

  pub Clean-CleanInv : {s t : State mq} → Clean mq s t → CleanInv s → CleanInv t
  Clean-CleanInv Clean.here v = v
  Clean-CleanInv (Clean.next r st) v = Step-CleanInv st (Clean-CleanInv r v)

  receive_any :
      (q : mq.Queue)
      → 0 < length (contents q)
      → (m : List ℕ) × (q' : mq.Queue) × (mq.receive q ≡ some (m, q'))
  receive_any q h = go (contents q) refl h
    where
      go :
          (ms : List (List ℕ))
          → contents q ≡ ms
          → 0 < length ms
          → (m : List ℕ) × (q' : mq.Queue) × (mq.receive q ≡ some (m, q'))
      go [] e lt = absurd (omega arith)
      go (m ∷ ms) e lt = let (q', r) = mq.receive_ready q m ms e in (m, q', r)

  enabled :
      (s : State mq) (p : Parent) (c : Child)
      → CleanInv s
      → s.parent ≡ p
      → s.child ≡ c
      → (s.parent ≡ reporting iterations) ⊎ ((t : State mq) × Step mq s t)
  enabled s (sending i) c v ep ec = elim (dec_lt i iterations) [
    | yes lt ↦ inr (_, parent_send (record { tv_sec = 0; tv_nsec = 0 }) ep lt)
    | no ge ↦ inr (_, parent_finish ep (omega arith))
  ]
  enabled s (reporting i) c v ep ec = inl (ground arith)
  enabled s (receiving i t) (replying j) v ep ec = inr (_, child_send ec)
  enabled s (receiving i t) (exited j) v ep ec =
      let (m, q, r) = receive_any s.ctop (ground arith) in
      inr (_, parent_receive (record { tv_sec = 0; tv_nsec = 0 }) ep r)
  enabled s (receiving i t) (waiting j) v ep ec = elim (dec_lt 0 (length (contents s.ctop))) [
    | yes replied ↦
        let (m, q, r) = receive_any s.ctop replied in
        inr (_, parent_receive (record { tv_sec = 0; tv_nsec = 0 }) ep r)
    | no empty ↦
        let (m, q, r) = receive_any s.ptoc (ground arith) in
        inr (_, child_receive ec (ground arith) r)
  ]

  pub init-CleanInv : (garbage : List ℕ) → CleanInv (init mq garbage)
  init-CleanInv garbage = record {
    flight = rw mq.opened_empty (omega arith);
    counted = rw mq.opened_empty (omega arith);
    parent_loop = omega arith;
    child_loop = omega arith;
  }

  -- While every call succeeds, either the parent has completed its 10000 rounds or one of the two
  -- processes can move: a blocked receive is always answered.
  pub never_stuck :
      {garbage : List ℕ} {s : State mq}
      → Clean mq (init mq garbage) s
      → (s.parent ≡ reporting iterations) ⊎ ((t : State mq) × Step mq s t)
  never_stuck {garbage} {s} r =
      enabled s s.parent s.child (Clean-CleanInv r (init-CleanInv garbage)) refl refl
