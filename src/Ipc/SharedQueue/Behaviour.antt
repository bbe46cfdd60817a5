-- ===== src/Ipc/SharedQueue/Behaviour.antt =====
-- What holds, and what may happen, in ipc/ipc_latency.c.
use microkernel_benchmark.Prelude.{
  ℕ, zero, suc, ◌+◌, ◌<◌, ◌≤◌, ◌≡◌, refl, sym, ◌∙◌, ap, arith, some, List, [], ◌∷◌, ◌++◌, String,
  length,
}
use microkernel_benchmark.Timespec.{Timespec}
use microkernel_benchmark.Ipc.{MessageQueue, iterations}
use microkernel_benchmark.Ipc.SharedQueue.{
  Parent, sending, Child, waiting, replying, State, init, Step, parent_send, parent_receive,
  parent_finish, parent_send_fails, parent_receive_fails, child_receive, child_send, child_finish,
  child_receive_fails, child_send_fails, Reach, here, next,
}

abbrev held : Child → ℕ
held (replying _) = 1
held _ = 0

abbrev awaited : Parent → ℕ
awaited (sending _) = 0
awaited _ = 1

abbrev pub Pings : List String → Type 0
Pings [] = Unit
Pings (m ∷ ms) = (m ≡ "ping") × Pings ms

module _ (mq : MessageQueue String) where
  open mq use {contents}

  record Inv (s : State mq) : Type 0 where
    flight : length (contents s.queue) + held s.child ≤ awaited s.parent
    sent : s.parent_buffer ≡ "ping"
    queued : Pings (contents s.queue)
    echo : (i : ℕ) → s.child ≡ replying i → s.child_buffer ≡ "ping"

  send_into :
      (q : mq.Queue) (m : String)
      → length (contents q) ≡ 0
      → m ≡ "ping"
      → (length (contents (mq.send q m)) ≡ 1) × Pings (contents (mq.send q m))
  send_into q m empty e = rw (mq.send_appends q m (omega arith)) (go (contents q) empty)
    where
      go : (ms : List String) → length ms ≡ 0 → (length (ms ++ m ∷ []) ≡ 1) × Pings (ms ++ m ∷ [])
      go [] z = (refl, (e, tt))
      go (x ∷ ms) z = absurd (omega arith)

  receive_from :
      (q : mq.Queue) (m : String) (q' : mq.Queue)
      → mq.receive q ≡ some (m, q')
      → Pings (contents q)
      → (m ≡ "ping") × Pings (contents q') × (length (contents q) ≡ length (contents q') + 1)
  receive_from q m q' e h =
      let all : Pings (m ∷ contents q') = rw (mq.receive_oldest q m q' e) at h in
      (all.0, all.1, rw (mq.receive_oldest q m q' e) (omega arith))

  Step-Inv : {s t : State mq} → Step mq s t → Inv s → Inv t
  Step-Inv {s} (parent_send start e lt) v =
      let (one, pings) = send_into s.queue s.parent_buffer (ground arith) v.sent in
      record { flight = ground arith; sent = v.sent; queued = pings; echo = v.echo }
  Step-Inv {s} (parent_receive end {m} {q} e r) v =
      let (ping, rest, longer) = receive_from s.queue m q r v.queued in
      record { flight = ground arith; sent = ping; queued = rest; echo = v.echo }
  Step-Inv (parent_finish e le) v = record {
    flight = ground arith;
    sent = v.sent;
    queued = v.queued;
    echo = v.echo;
  }
  Step-Inv (parent_send_fails e lt) v = record {
    flight = ground arith;
    sent = v.sent;
    queued = v.queued;
    echo = v.echo;
  }
  Step-Inv (parent_receive_fails e) v = record {
    flight = ground arith;
    sent = v.sent;
    queued = v.queued;
    echo = v.echo;
  }
  Step-Inv {s} (child_receive {m = m} {q = q} e lt r) v =
      let (ping, rest, longer) = receive_from s.queue m q r v.queued in
      record { flight = ground arith; sent = v.sent; queued = rest; echo = λ _ _. ping }
  Step-Inv {s} (child_send {i} e) v =
      let (one, pings) = send_into s.queue s.child_buffer (ground arith) (v.echo i e) in
      record { flight = ground arith; sent = v.sent; queued = pings; echo = λ _ e'. cc }
  Step-Inv (child_finish e le) v = record {
    flight = ground arith;
    sent = v.sent;
    queued = v.queued;
    echo = λ _ e'. cc;
  }
  Step-Inv (child_receive_fails e lt) v = record {
    flight = ground arith;
    sent = v.sent;
    queued = v.queued;
    echo = λ _ e'. cc;
  }
  Step-Inv (child_send_fails e) v = record {
    flight = ground arith;
    sent = v.sent;
    queued = v.queued;
    echo = λ _ e'. cc;
  }

  init-Inv : (garbage : String) → Inv (init mq garbage)
  init-Inv garbage = record {
    flight = rw mq.opened_empty (omega arith);
    sent = refl;
    queued = rw mq.opened_empty tt;
    echo = λ i e. cc;
  }

  Reach-Inv : {s t : State mq} → Reach mq s t → Inv s → Inv t
  Reach-Inv here v = v
  Reach-Inv (next r st) v = Step-Inv st (Reach-Inv r v)

  -- Whatever calls fail, at most one message is queued, and all that is queued or that the parent
  -- holds is "ping".
  pub one_ping :
      {garbage : String} {s : State mq}
      → Reach mq (init mq garbage) s
      → (length (contents s.queue) ≤ 1) × Pings (contents s.queue) × (s.parent_buffer ≡ "ping")
  one_ping {garbage} r =
      let v = Reach-Inv r (init-Inv garbage) in (ground (arith, v.flight), v.queued, v.sent)

  -- The parent after `n` rounds of its own, with the child where it started.
  record Alone (garbage : String) (n : ℕ) : Type 0 where
    state : State mq
    reach : Reach mq (init mq garbage) state
    at : state.parent ≡ sending n
    child : state.child ≡ waiting 0
    empty : contents state.queue ≡ []

  abbrev zero_time : Timespec
  zero_time = record { tv_sec = 0; tv_nsec = 0 }

  received_last :
      (q : mq.Queue) (m : String) (q' : mq.Queue)
      → contents q ≡ m ∷ []
      → mq.receive q ≡ some (m, q')
      → contents q' ≡ []
  received_last q m q' one r =
      let same : m ∷ contents q' ≡ m ∷ [] = sym (mq.receive_oldest q m q' r) ∙ one in cc

  -- A round trip that the parent makes with itself: it takes its own message out of the queue.
  lonely_round :
      (garbage : String) (n : ℕ) → n < iterations → Alone garbage n → Alone garbage (suc n)
  lonely_round garbage n lt a = record {
    state = _;
    reach =
        next (next a.reach (parent_send zero_time a.at lt)) (parent_receive zero_time refl got.1);
    at = ap sending (omega arith);
    child = a.child;
    empty = received_last sent_queue buffer got.0 one got.1;
  }
    where
      buffer : String
      buffer = a.state.parent_buffer

      sent_queue : mq.Queue
      sent_queue = mq.send a.state.queue buffer

      one : contents sent_queue ≡ buffer ∷ []
      one = rw (mq.send_appends a.state.queue buffer (rw a.empty (omega arith)), a.empty)

      got : (q : mq.Queue) × (mq.receive sent_queue ≡ some (buffer, q))
      got = mq.receive_ready sent_queue buffer [] one

  alone : (garbage : String) (n : ℕ) → n ≤ iterations → Alone garbage n
  alone garbage zero h = record {
    state = _;
    reach = here;
    at = refl;
    child = refl;
    empty = mq.opened_empty;
  }
  alone garbage (suc n) h = lonely_round garbage n (omega arith) (alone garbage n (omega arith))

  -- The two directions share one queue, so the parent can complete any number of its rounds,
  -- up to all of them, by receiving its own messages, while the child has not received one.
  pub round_trips_without_child :
      (garbage : String) (n : ℕ)
      → n ≤ iterations
      → (s : State mq) × Reach mq (init mq garbage) s
        × (s.parent ≡ sending n)
        × (s.child ≡ waiting 0)
  round_trips_without_child garbage n h =
      let a = alone garbage n h in (a.state, a.reach, a.at, a.child)
