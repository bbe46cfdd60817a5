-- ===== src/Mosquitto/Session/Silence.antt =====
-- A run whose connection or subscription was refused. The programs do not look at these results.
use microkernel_benchmark.Prelude.{ℕ, ◌<◌, ◌≡◌, ◌≢◌, refl, sym, subst, ◌∙◌, arith, false}
use microkernel_benchmark.Mosquitto.Exchange
use microkernel_benchmark.Mosquitto.Exchange.{
  Exchange, Main, publishing, checking, sleeping, woken, leaving, finished, free, idle, signal,
}
use microkernel_benchmark.Mosquitto.Session.{
  Phase, creating, prepared, running, State, restart, init, Delivered, Step, begin, no_client,
  connect, loop_start, exchange, loop_stop, summary, finish, Steps, here, next,
}

-- `main` is not behind its wait.
abbrev IsBefore : Main → Type 0
IsBefore leaving = ⊥
IsBefore finished = ⊥
IsBefore _ = Unit

module _ (count : ℕ) (some_ : 0 < count) where
  abbrev pub Silent : Exchange → Type 0
  Silent e = (e.recv_count ≡ 0) × IsBefore e.main × (e.net ≡ idle)

  Step-Silent :
      {e f : Exchange} (st : Exchange.Step count e f)
      → Delivered count st false
      → Silent e
      → Silent f
  Step-Silent (Exchange.publish now q lt) d v = ground arith
  Step-Silent (Exchange.published q ge) d v = ground arith
  Step-Silent (Exchange.lock q f) d v = ground arith
  Step-Silent (Exchange.wait q lt) d v = ground arith
  Step-Silent (Exchange.spurious q) d v = ground arith
  Step-Silent (Exchange.relock q f) d v = ground arith
  Step-Silent (Exchange.leave q ge) d v = absurd (ground arith)
  Step-Silent (Exchange.unlock q) d v = absurd (ground arith)
  Step-Silent (Exchange.message now q) d v = absurd (ground arith)
  Step-Silent (Exchange.net_lock q f) d v = absurd (ground arith)
  Step-Silent (Exchange.net_signal q) d v = absurd (ground arith)
  Step-Silent (Exchange.net_unlock q) d v = absurd (ground arith)

  -- Between the call of mosquitto_new and that of mosquitto_loop_stop nothing is received while
  -- there is no subscription.
  abbrev Quiet : Phase → State → Type 0
  Quiet (creating k) s = Silent s.exchange
  Quiet (prepared k) s = Silent s.exchange
  Quiet (running k) s = s.is_subscribed ≡ false → Silent s.exchange
  Quiet _ s = Unit

  module _ (runs : ℕ) where
    Step-Quiet : {s t : State} → Step count runs s t → Quiet s.phase s → Quiet t.phase t
    unfolding restart
    Step-Quiet {s} (begin e lt) v = (refl, tt, refl)
    Step-Quiet {s} (no_client e) v = tt
    Step-Quiet {s} (connect accepted e) v = subst (λ p. Quiet p s) e v
    Step-Quiet {s} (loop_start e) v = λ off. subst (λ p. Quiet p s) e v
    Step-Quiet {s} (exchange {clock = clock} {e = f} e st t d) v =
        let q : s.is_subscribed ≡ false → Silent s.exchange = subst (λ p. Quiet p s) e v in
        subst (λ p. Quiet p (record s { exchange = f; clock = clock })) (sym e)
          (λ off. Step-Silent st (subst (Delivered count st) off d) (q off))
    Step-Quiet {s} (loop_stop e m n) v = tt
    Step-Quiet {s} (summary e) v = tt
    Step-Quiet {s} (finish e ge) v = tt

    Steps-Quiet : {s t : State} → Steps count runs s t → Quiet s.phase s → Quiet t.phase t
    Steps-Quiet here v = v
    Steps-Quiet (next r st) v = Step-Quiet st (Steps-Quiet r v)

    -- Nothing but the exchange goes on.
    record Hangs (s t : State) : Type 0 where
      phase : t.phase ≡ s.phase
      unsubscribed : t.is_subscribed ≡ false
      summaries : t.summaries ≡ s.summaries
      silent : Silent t.exchange

    Step-Hangs :
        {k : ℕ} {s t u : State} → s.phase ≡ running k → Step count runs t u → Hangs s t → Hangs s u
    Step-Hangs e (begin f lt) h = absurd (ground (arith, h.phase))
    Step-Hangs e (no_client f) h = absurd (ground (arith, h.phase))
    Step-Hangs e (connect accepted f) h = absurd (ground (arith, h.phase))
    Step-Hangs e (loop_start f) h = absurd (ground (arith, h.phase))
    Step-Hangs e (exchange f st t d) h = record {
      phase = h.phase;
      unsubscribed = h.unsubscribed;
      summaries = h.summaries;
      silent = Step-Silent st (subst (Delivered count st) h.unsubscribed d) h.silent;
    }
    Step-Hangs e (loop_stop f m n) h = absurd (ground (arith, h.silent))
    Step-Hangs e (summary f) h = absurd (ground (arith, h.phase))
    Step-Hangs e (finish f ge) h = absurd (ground (arith, h.phase))

    Steps-Hangs :
        {k : ℕ} {s t : State} → s.phase ≡ running k → Hangs s s → Steps count runs s t → Hangs s t
    Steps-Hangs e h here = h
    Steps-Hangs e h (next r st) = Step-Hangs e st (Steps-Hangs e h r)

    -- With at least one message to wait for: once a run publishes without a subscription, then after
    -- any further steps the program is still in that run, has received nothing, has summarised
    -- nothing more, and has not come out of its wait.
    pub unsubscribed_hangs :
        {s t : State} {k : ℕ}
        → Steps count runs (init count) s
        → s.phase ≡ running k
        → s.is_subscribed ≡ false
        → Steps count runs s t
        → (t.phase ≡ running k)
          × (t.exchange.recv_count ≡ 0)
          × (t.summaries ≡ s.summaries)
          × (t.exchange.main ≢ finished)
    unsubscribed_hangs {s} {t} r e off q =
        let v : s.is_subscribed ≡ false → Silent s.exchange =
          subst (λ p. Quiet p s) e (Steps-Quiet r tt) in
        let h =
          Steps-Hangs e
            (record { phase = refl; unsubscribed = off; summaries = refl; silent = v off }) q in
        (h.phase ∙ e, h.silent.0, h.summaries, λ over. subst IsBefore over h.silent.1)
