-- ===== src/Mosquitto/Session/Times.antt =====
-- What the two threads have written into the arrays since a run began.
use microkernel_benchmark.Prelude.{
  ℕ, suc, ◌+◌, ◌≤◌, ◌≡◌, refl, sym, ap, subst, ◌∙◌, arith, List, length, length-set, set, take, All,
  All-mono, take-set-All, take-All-le, Bool-cases, ltb, inl, inr,
}
use microkernel_benchmark.Mosquitto.Exchange
use microkernel_benchmark.Mosquitto.Exchange.{
  Exchange, Main, publishing, checking, sleeping, woken, leaving, finished, free, idle, signal,
  on_message,
}
use microkernel_benchmark.Mosquitto.Session.{Timely}

abbrev pub Within : ℕ → ℕ → ℕ → Type 0
Within since clock t = (since ≤ t) × (t ≤ clock)

later :
    (since clock clock' : ℕ) (ts : List ℕ)
    → clock ≤ clock'
    → All (Within since clock) ts
    → All (Within since clock') ts
later since clock clock' ts h =
    All-mono (Within since clock) (Within since clock') ts (λ t w. (w.0, omega arith))

module _ (count : ℕ) where
  -- The part of `send_times` that `main` has written.
  abbrev pub Sent : ℕ → ℕ → Main → List ℕ → Type 0
  Sent since clock (publishing i) ts = All (Within since clock) (take i ts)
  Sent since clock _ ts = All (Within since clock) (take count ts)

  pub record Fresh (since clock : ℕ) (e : Exchange) : Type 0 where
    pub sends : length e.send_times ≡ count
    pub recvs : length e.recv_times ≡ count
    pub begun : since ≤ clock
    pub sent : Sent since clock e.main e.send_times
    pub received : All (Within since clock) (take e.recv_count e.recv_times)

  signal-Sent :
      (since clock : ℕ) (m : Main) (ts : List ℕ)
      → Sent since clock m ts
      → Sent since clock (signal m) ts
  signal-Sent since clock sleeping ts h = h
  signal-Sent since clock (publishing i) ts h = h
  signal-Sent since clock Main.locking ts h = h
  signal-Sent since clock checking ts h = h
  signal-Sent since clock woken ts h = h
  signal-Sent since clock leaving ts h = h
  signal-Sent since clock finished ts h = h

  Sent-later :
      (since clock clock' : ℕ) (m : Main) (ts : List ℕ)
      → clock ≤ clock'
      → Sent since clock m ts
      → Sent since clock' m ts
  Sent-later since clock clock' (publishing i) ts h = later since clock clock' (take i ts) h
  Sent-later since clock clock' sleeping ts h = later since clock clock' (take count ts) h
  Sent-later since clock clock' Main.locking ts h = later since clock clock' (take count ts) h
  Sent-later since clock clock' checking ts h = later since clock clock' (take count ts) h
  Sent-later since clock clock' woken ts h = later since clock clock' (take count ts) h
  Sent-later since clock clock' leaving ts h = later since clock clock' (take count ts) h
  Sent-later since clock clock' finished ts h = later since clock clock' (take count ts) h

  at_main :
      (since clock : ℕ) (e : Exchange) {m : Main}
      → Fresh since clock e
      → e.main ≡ m
      → Sent since clock m e.send_times
  at_main since clock e v q = subst (λ k. Sent since clock k e.send_times) q v.sent

  -- `main` goes on behind its publishing loop, with nothing written.
  module _ (since clock clock' : ℕ) (e : Exchange) (still : clock' ≡ clock)
      (v : Fresh since clock e) where
    unchanged :
        (f : Exchange)
        → f.send_times ≡ e.send_times
        → f.recv_times ≡ e.recv_times
        → f.recv_count ≡ e.recv_count
        → Sent since clock f.main e.send_times
        → Fresh since clock' f
    unchanged f es er ec h = record {
      sends = ap length es ∙ v.sends;
      recvs = ap length er ∙ v.recvs;
      begun = omega (arith, v.begun);
      sent =
          subst (λ ts. Sent since clock' f.main ts) (sym es)
            (Sent-later since clock clock' f.main e.send_times (omega arith) h);
      received =
          subst (λ n. All (Within since clock') (take n f.recv_times)) (sym ec)
            (subst (λ ts. All (Within since clock') (take e.recv_count ts)) (sym er)
              (later since clock clock' (take e.recv_count e.recv_times) (omega arith) v.received));
    }

  published-Fresh :
      (since clock now i : ℕ) (e : Exchange)
      → clock ≤ now
      → e.main ≡ publishing i
      → Fresh since clock e
      → Fresh since now
          (record e { send_times = set e.send_times i now; main = publishing (i + 1) })
  published-Fresh since clock now i e le q v =
      let before : All (Within since now) (take i e.send_times) =
        later since clock now (take i e.send_times) le (at_main since clock e v q) in
      let one_more : suc i ≡ i + 1 = omega arith in
      record {
        sends = length-set e.send_times i now ∙ v.sends;
        recvs = v.recvs;
        begun = omega (arith, v.begun);
        sent =
            subst (λ n. All (Within since now) (take n (set e.send_times i now))) one_more
              (take-set-All (Within since now) i e.send_times now before
                (omega (arith, v.begun), omega arith));
        received = later since clock now (take e.recv_count e.recv_times) le v.received;
      }

  message-Fresh :
      (since clock now : ℕ) (e : Exchange)
      → clock ≤ now
      → Fresh since clock e
      → Fresh since now (on_message count now e)
  unfolding on_message
  message-Fresh since clock now e le v = elim (Bool-cases (ltb e.recv_count count)) [
    | inl below ↦
        let one_more : suc e.recv_count ≡ e.recv_count + 1 = omega arith in
        let before : All (Within since now) (take e.recv_count e.recv_times) =
          later since clock now (take e.recv_count e.recv_times) le v.received in
        rw below (record {
          sends = v.sends;
          recvs = length-set e.recv_times e.recv_count now ∙ v.recvs;
          begun = omega (arith, v.begun);
          sent = Sent-later since clock now e.main e.send_times le v.sent;
          received =
              subst (λ n. All (Within since now) (take n (set e.recv_times e.recv_count now)))
                one_more
                (take-set-All (Within since now) e.recv_count e.recv_times now before
                  (omega (arith, v.begun), omega arith));
        })
    | inr over ↦ rw over (record {
      sends = v.sends;
      recvs = v.recvs;
      begun = omega (arith, v.begun);
      sent = Sent-later since clock now e.main e.send_times le v.sent;
      received = later since clock now (take e.recv_count e.recv_times) le v.received;
    })
  ]

  pub Step-Fresh :
      (since clock clock' : ℕ) {e f : Exchange} (st : Exchange.Step count e f)
      → Timely count st clock clock'
      → Fresh since clock e
      → Fresh since clock' f
  Step-Fresh since clock clock' {e} (Exchange.publish {i} now q lt) (le, now_) v =
      subst
        (λ c.
          Fresh since c
            (record e { send_times = set e.send_times i now; main = publishing (i + 1) }))
        (sym now_) (published-Fresh since clock now i e le q v)
  Step-Fresh since clock clock' {e} (Exchange.message now q) (le, now_) v =
      subst (λ c. Fresh since c (on_message count now e)) (sym now_)
        (message-Fresh since clock now e le v)
  Step-Fresh since clock clock' {e} (Exchange.published {i} q ge) t v =
      unchanged since clock clock' e t v _ refl refl refl
        (take-All-le (Within since clock) count i e.send_times ge (at_main since clock e v q))
  Step-Fresh since clock clock' {e} (Exchange.lock q f) t v =
      unchanged since clock clock' e t v _ refl refl refl (at_main since clock e v q)
  Step-Fresh since clock clock' {e} (Exchange.wait q lt) t v =
      unchanged since clock clock' e t v _ refl refl refl (at_main since clock e v q)
  Step-Fresh since clock clock' {e} (Exchange.spurious q) t v =
      unchanged since clock clock' e t v _ refl refl refl (at_main since clock e v q)
  Step-Fresh since clock clock' {e} (Exchange.relock q f) t v =
      unchanged since clock clock' e t v _ refl refl refl (at_main since clock e v q)
  Step-Fresh since clock clock' {e} (Exchange.leave q ge) t v =
      unchanged since clock clock' e t v _ refl refl refl (at_main since clock e v q)
  Step-Fresh since clock clock' {e} (Exchange.unlock q) t v =
      unchanged since clock clock' e t v _ refl refl refl (at_main since clock e v q)
  Step-Fresh since clock clock' {e} (Exchange.net_lock q f) t v =
      unchanged since clock clock' e t v _ refl refl refl v.sent
  Step-Fresh since clock clock' {e} (Exchange.net_signal q) t v =
      unchanged since clock clock' e t v _ refl refl refl
        (signal-Sent since clock e.main e.send_times v.sent)
  Step-Fresh since clock clock' {e} (Exchange.net_unlock q) t v =
      unchanged since clock clock' e t v _ refl refl refl v.sent
