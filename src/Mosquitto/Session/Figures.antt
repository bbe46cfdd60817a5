-- ===== src/Mosquitto/Session/Figures.antt =====
-- Which times the figures of a run are made of.
use microkernel_benchmark.Prelude.{
  ℕ, ◌+◌, ◌≡◌, refl, sym, ap, subst, ◌∙◌, arith, List, [], ◌∷◌, length, length-append,
  length-replicate, take, All,
}
use microkernel_benchmark.Mosquitto.Exchange
use microkernel_benchmark.Mosquitto.Exchange.{Exchange, publishing, finished, free, idle}
use microkernel_benchmark.Mosquitto.Wait.{finished_complete, finished_free}
use microkernel_benchmark.Mosquitto.Session.{
  Phase, ready, creating, prepared, running, stopped, done, exited, State, restart, report, init,
  Step, begin, no_client, connect, loop_start, exchange, loop_stop, summary, finish, Steps, here,
  next,
}
use microkernel_benchmark.Mosquitto.Session.Times.{Within, Sent, Fresh, Step-Fresh}

restart-init :
    (count : ℕ) (e : Exchange)
    → e.mutex ≡ free
    → restart e ≡ Exchange.init count e.send_times e.recv_times
unfolding restart
restart-init count e f i = record {
  send_times = e.send_times;
  recv_times = e.recv_times;
  recv_count = 0;
  mutex = f i;
  main = publishing 0;
  net = idle;
}

module _ (count : ℕ) where
  -- The exchange has come about from the start of a run.
  abbrev FromStart : Exchange → Type 0
  FromStart e =
      (sends : List ℕ) × (recvs : List ℕ) × Exchange.Reach count (Exchange.init count sends recvs) e

  abbrev Between : State → Type 0
  Between s =
      (s.exchange.mutex ≡ free)
      × (length s.exchange.send_times ≡ count)
      × (length s.exchange.recv_times ≡ count)

  abbrev During : State → Type 0
  During s = FromStart s.exchange × Fresh count s.since s.clock s.exchange

  -- All entries of both arrays have been written in this run.
  abbrev pub Complete : State → Type 0
  Complete s =
      (s.exchange.recv_count ≡ count)
      × All (Within s.since s.clock) (take count s.exchange.send_times)
      × All (Within s.since s.clock) (take count s.exchange.recv_times)

  abbrev pub Place : Phase → State → Type 0
  Place (ready k) s = Between s × (length s.summaries ≡ k)
  Place (creating k) s = During s × (length s.summaries ≡ k)
  Place (prepared k) s = During s × (length s.summaries ≡ k)
  Place (running k) s = During s × (length s.summaries ≡ k)
  Place (stopped k) s = Between s × Complete s × (length s.summaries ≡ k)
  Place done s = Unit
  Place exited s = Unit

  start-During :
      (s : State) → Between s → During (record s { exchange = restart s.exchange; since = s.clock })
  unfolding restart
  start-During s (f, ls, lr) = (
    (
      s.exchange.send_times,
      s.exchange.recv_times,
      subst (Exchange.Reach count (Exchange.init count s.exchange.send_times s.exchange.recv_times))
          (sym (restart-init count s.exchange f)) Exchange.here,
    ),
    record { sends = ls; recvs = lr; begun = omega arith; sent = tt; received = tt },
  )

  stop-Complete :
      (s : State)
      → During s
      → s.exchange.main ≡ finished
      → s.exchange.net ≡ idle
      → Between s × Complete s
  stop-Complete s ((sends, recvs, r), v) m n =
      let (all, _) = finished_complete count r m in
      (
        (finished_free count r m n, v.sends, v.recvs),
        (
          all,
          subst (λ k. Sent count s.since s.clock k s.exchange.send_times) m v.sent,
          subst (λ n. All (Within s.since s.clock) (take n s.exchange.recv_times)) all v.received,
        ),
      )

  module _ (runs : ℕ) where
    Step-Place : {s t : State} → Step count runs s t → Place s.phase s → Place t.phase t
    Step-Place {s} (begin e lt) v = let (b, l) = subst (λ p. Place p s) e v in (start-During s b, l)
    Step-Place {s} (no_client e) v = tt
    Step-Place {s} (connect accepted e) v = subst (λ p. Place p s) e v
    Step-Place {s} (loop_start e) v = subst (λ p. Place p s) e v
    Step-Place {s} (exchange {k = k} {clock = clock} {e = f} e st t d) v =
        let (((sends, recvs, r), h), l) = subst (λ p. Place p s) e v in
        subst (λ p. Place p (record s { exchange = f; clock = clock })) (sym e)
          (((sends, recvs, Exchange.next r st), Step-Fresh count s.since s.clock clock st t h), l)
    Step-Place {s} (loop_stop e m n) v =
        let (h, l) = subst (λ p. Place p s) e v in let (b, c) = stop-Complete s h m n in (b, c, l)
    Step-Place {s} (summary e) v =
        let (b, c, l) = subst (λ p. Place p s) e v in
        (b, length-append s.summaries (report count s.exchange ∷ []) ∙ ap (λ k. k + 1) l)
    Step-Place {s} (finish e ge) v = tt

    init-Place : Place (ready 0) (init count)
    init-Place = ((refl, length-replicate count 0, length-replicate count 0), refl)

    Steps-Place : {s t : State} → Steps count runs s t → Place s.phase s → Place t.phase t
    Steps-Place here v = v
    Steps-Place (next r st) v = Step-Place st (Steps-Place r v)

    -- In every reachable state in which a run has stopped its network thread: the mutex is free, as
    -- many runs have been summarised as came before, the run has received all messages, and every
    -- entry of both arrays, from which its figures are made, is a time between its beginning and
    -- the last reading of the clock.
    pub figures_fresh :
        {s : State} {k : ℕ}
        → Steps count runs (init count) s
        → s.phase ≡ stopped k
        → Complete s × (s.exchange.mutex ≡ free) × (length s.summaries ≡ k)
    figures_fresh {s} r e =
        let (b, c, l) = subst (λ p. Place p s) e (Steps-Place r init-Place) in (c, b.0, l)
