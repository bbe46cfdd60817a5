-- ===== src/Ipc/TwoQueues/Behaviour.antt =====
-- What holds in every state of ipc/ipc_mq_latency.c.
use microkernel_benchmark.Prelude.{
  All, All-append, ℕ, ◌+◌, ◌<◌, ◌≤◌, ◌≡◌, refl, arith, some, List, [], ◌∷◌, length, length-append,
}
use microkernel_benchmark.Ipc.{MessageQueue}
use microkernel_benchmark.Ipc.TwoQueues.{
  Parent, sending, receiving, reporting, Child, waiting, replying, exited, payload, State, init,
  Step, parent_send, parent_receive, parent_finish, child_receive, child_send, child_finish, Fault,
  fault, parent_send_fails, parent_receive_fails, child_receive_fails, child_send_fails, Reach,
}

abbrev pub parent_rounds : Parent → ℕ
parent_rounds (sending i) = i
parent_rounds (receiving i _) = i
parent_rounds (reporting i) = i

abbrev pub child_rounds : Child → ℕ
child_rounds (waiting i) = i
child_rounds (replying i) = i
child_rounds (exited i) = i

-- A message that the child holds, and one that the parent waits for.
abbrev pub held : Child → ℕ
held (replying _) = 1
held _ = 0

abbrev awaited : Parent → ℕ
awaited (sending _) = 0
awaited _ = 1

module _ (mq : MessageQueue (List ℕ)) where
  open mq use {contents}

  -- At most one message is under way, and each reply that left the child is still in the queue
  -- or is a round of the parent's.
  pub record Inv (s : State mq) : Type 0 where
    pub flight :
        length (contents s.ptoc) + held s.child + length (contents s.ctop) ≤ awaited s.parent
    pub counted : child_rounds s.child ≡ parent_rounds s.parent + length (contents s.ctop)

  pub length-send :
      (q : mq.Queue) (m : List ℕ)
      → length (contents q) < 10
      → length (contents (mq.send q m)) ≡ length (contents q) + 1
  length-send q m h = rw (mq.send_appends q m h) (length-append (contents q) (m ∷ []))

  pub length-receive :
      (q : mq.Queue) (m : List ℕ) (q' : mq.Queue)
      → mq.receive q ≡ some (m, q')
      → length (contents q) ≡ length (contents q') + 1
  length-receive q m q' e = rw (mq.receive_oldest q m q' e) (omega arith)

  Step-Inv : {s t : State mq} → Step mq s t → Inv s → Inv t
  Step-Inv {s} (parent_send start e lt) v = ground (arith, length-send s.ptoc s.parent_buffer)
  Step-Inv {s} (parent_receive end {m} {q} e r) v = ground (arith, length-receive s.ctop m q r)
  Step-Inv (parent_finish e le) v = ground arith
  Step-Inv {s} (child_receive {m = m} {q = q} e lt r) v =
      ground (arith, length-receive s.ptoc m q r)
  Step-Inv {s} (child_send e) v = ground (arith, length-send s.ctop s.child_buffer)
  Step-Inv (child_finish e le) v = ground arith

  Fault-Inv : {s t : State mq} → Fault mq s t → Inv s → Inv t
  Fault-Inv (parent_send_fails e lt) v = ground arith
  Fault-Inv (parent_receive_fails e) v = ground arith
  Fault-Inv (child_receive_fails e lt) v = ground arith
  Fault-Inv (child_send_fails e) v = ground arith

  init-Inv : (garbage : List ℕ) → Inv (init mq garbage)
  init-Inv garbage = record {
    flight = rw mq.opened_empty (omega arith);
    counted = rw mq.opened_empty (omega arith);
  }

  Reach-Inv : {s t : State mq} → Reach mq s t → Inv s → Inv t
  Reach-Inv Reach.here v = v
  Reach-Inv (Reach.next r st) v = Step-Inv st (Reach-Inv r v)
  Reach-Inv (fault r f) v = Fault-Inv f (Reach-Inv r v)

  -- Whatever calls fail, at most one message is queued, and a round that the parent has completed
  -- was echoed by the child: the child is ahead by the replies that are still in its queue.
  pub rounds-echoed :
      {garbage : List ℕ} {s : State mq}
      → Reach mq (init mq garbage) s
      → (length (contents s.ptoc) + length (contents s.ctop) ≤ 1)
        × (child_rounds s.child ≡ parent_rounds s.parent + length (contents s.ctop))
  rounds-echoed {garbage} r = ground (arith, Reach-Inv r (init-Inv garbage))

  -- Every message is the payload.
  record Intact (s : State mq) : Type 0 where
    parent : s.parent_buffer ≡ payload
    child : (i : ℕ) → s.child ≡ replying i → s.child_buffer ≡ payload
    asked : All (λ m. m ≡ payload) (contents s.ptoc)
    echoed : All (λ m. m ≡ payload) (contents s.ctop)

  All-send :
      (q : mq.Queue) (m : List ℕ)
      → length (contents q) < 10
      → m ≡ payload
      → All (λ x. x ≡ payload) (contents q)
      → All (λ x. x ≡ payload) (contents (mq.send q m))
  All-send q m room e h =
      rw (mq.send_appends q m room) (All-append (λ x. x ≡ payload) (contents q) (m ∷ []) h (e, tt))

  All-receive :
      (q : mq.Queue) (m : List ℕ) (q' : mq.Queue)
      → mq.receive q ≡ some (m, q')
      → All (λ x. x ≡ payload) (contents q)
      → (m ≡ payload) × All (λ x. x ≡ payload) (contents q')
  All-receive q m q' e h = rw (mq.receive_oldest q m q' e) at h

  Step-Intact : {s t : State mq} → Step mq s t → Inv s → Intact s → Intact t
  Step-Intact {s} (parent_send start e lt) v h = record {
    parent = h.parent;
    child = h.child;
    asked = All-send s.ptoc s.parent_buffer (ground arith) h.parent h.asked;
    echoed = h.echoed;
  }
  Step-Intact {s} (parent_receive end {m} {q} e r) v h = record {
    parent = (All-receive s.ctop m q r h.echoed).0;
    child = h.child;
    asked = h.asked;
    echoed = (All-receive s.ctop m q r h.echoed).1;
  }
  Step-Intact (parent_finish e le) v h = record {
    parent = h.parent;
    child = h.child;
    asked = h.asked;
    echoed = h.echoed;
  }
  Step-Intact {s} (child_receive {m = m} {q = q} e lt r) v h = record {
    parent = h.parent;
    child = λ _ _. (All-receive s.ptoc m q r h.asked).0;
    asked = (All-receive s.ptoc m q r h.asked).1;
    echoed = h.echoed;
  }
  Step-Intact {s} (child_send {i} e) v h = record {
    parent = h.parent;
    child = λ _ e'. cc;
    asked = h.asked;
    echoed = All-send s.ctop s.child_buffer (ground arith) (h.child i e) h.echoed;
  }
  Step-Intact (child_finish e le) v h = record {
    parent = h.parent;
    child = λ _ e'. cc;
    asked = h.asked;
    echoed = h.echoed;
  }

  Fault-Intact : {s t : State mq} → Fault mq s t → Intact s → Intact t
  Fault-Intact (parent_send_fails e lt) h = record {
    parent = h.parent;
    child = h.child;
    asked = h.asked;
    echoed = h.echoed;
  }
  Fault-Intact (parent_receive_fails e) h = record {
    parent = h.parent;
    child = h.child;
    asked = h.asked;
    echoed = h.echoed;
  }
  Fault-Intact (child_receive_fails e lt) h = record {
    parent = h.parent;
    child = λ _ e'. cc;
    asked = h.asked;
    echoed = h.echoed;
  }
  Fault-Intact (child_send_fails e) h = record {
    parent = h.parent;
    child = λ _ e'. cc;
    asked = h.asked;
    echoed = h.echoed;
  }

  init-Intact : (garbage : List ℕ) → Intact (init mq garbage)
  init-Intact garbage = record {
    parent = refl;
    child = λ i e. cc;
    asked = rw mq.opened_empty tt;
    echoed = rw mq.opened_empty tt;
  }

  Reach-Intact : {s t : State mq} → Reach mq s t → Inv s → Intact s → Intact t
  Reach-Intact Reach.here v h = h
  Reach-Intact (Reach.next r st) v h = Step-Intact st (Reach-Inv r v) (Reach-Intact r v h)
  Reach-Intact (fault r f) v h = Fault-Intact f (Reach-Intact r v h)

  -- Whatever calls fail, what the parent sends and gets back is the payload of 63 times 'M'.
  pub payload_intact :
      {garbage : List ℕ} {s : State mq}
      → Reach mq (init mq garbage) s
      → (s.parent_buffer ≡ payload)
        × All (λ m. m ≡ payload) (contents s.ptoc)
        × All (λ m. m ≡ payload) (contents s.ctop)
  payload_intact {garbage} r =
      let h = Reach-Intact r (init-Inv garbage) (init-Intact garbage) in
      (h.parent, h.asked, h.echoed)
