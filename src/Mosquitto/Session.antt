-- ===== src/Mosquitto/Session.antt =====
-- The runs that a program makes one after the other over the same arrays and the same mutex: one in
-- burst_pubsub_test.c, two in cpu_load_pubsub_test.c, three in qos_sweep_test.c. `count` is COUNT
-- and `runs` the number of runs. What the programs ask of the scheduler stands in Burst, CpuLoad and
-- QosSweep.
pub mod Times
pub mod Figures
pub mod Silence
use microkernel_benchmark.Prelude.{
  ℕ, ◌+◌, ◌<◌, ◌≤◌, ◌≡◌, List, [], ◌∷◌, ◌++◌, replicate, take, Bool, true, false,
}
use microkernel_benchmark.Mosquitto.Exchange
use microkernel_benchmark.Mosquitto.Exchange.{Exchange, free, publishing, finished, idle}
use microkernel_benchmark.Mosquitto.Summary.{Summary, summarise, start}

-- Where `main` stands in run `k`.
pub data Phase : Type 0 where
  ready : (k : ℕ) → Phase
  creating : (k : ℕ) → Phase  -- at mosquitto_new
  prepared : (k : ℕ) → Phase  -- has connected and subscribed, at mosquitto_loop_start
  running : (k : ℕ) → Phase  -- publishes and waits, while the network thread runs
  stopped : (k : ℕ) → Phase  -- behind mosquitto_loop_stop
  done : Phase
  exited : Phase

-- `is_subscribed` says whether the connection and the subscription were accepted, `clock` is the last
-- reading of either thread, and `since` what it was when the run began.
pub record State : Type 0 where
  pub phase : Phase
  pub exchange : Exchange
  pub is_subscribed : Bool
  pub clock : ℕ
  pub since : ℕ
  pub summaries : List Summary

-- The arrays keep what the run before has written.
unfoldable pub restart : Exchange → Exchange
restart e = record e { recv_count = 0; main = publishing 0; net = idle }

module _ (count : ℕ) where
  unfoldable pub report : Exchange → Summary
  unfolding summarise
  report e = summarise (take count e.recv_times) (take count e.send_times) start

  abbrev pub init : State
  init = record {
    phase = ready 0;
    exchange = Exchange.init count (replicate count 0) (replicate count 0);
    is_subscribed = false;
    clock = 0;
    since = 0;
    summaries = [];
  }

  -- The reading of the clock that a step makes, if it makes one.
  abbrev pub Timely : {e f : Exchange} → Exchange.Step count e f → ℕ → ℕ → Type 0
  Timely (Exchange.publish now _ _) clock clock' = (clock ≤ now) × (clock' ≡ now)
  Timely (Exchange.message now _) clock clock' = (clock ≤ now) × (clock' ≡ now)
  Timely _ clock clock' = clock' ≡ clock

  -- The library calls back for a subscription only.
  abbrev pub Delivered : {e f : Exchange} → Exchange.Step count e f → Bool → Type 0
  Delivered (Exchange.message _ _) is_subscribed = is_subscribed ≡ true
  Delivered _ is_subscribed = Unit

module _ (count runs : ℕ) where
  pub data Step (s : State) : State → Type 0 where
    begin :
        {k : ℕ}
        → s.phase ≡ ready k
        → k < runs
        → Step s (record s { phase = creating k; exchange = restart s.exchange; since = s.clock })
    no_client : {k : ℕ} → s.phase ≡ creating k → Step s (record s { phase = exited })
    connect :
        {k : ℕ} (accepted : Bool)
        → s.phase ≡ creating k
        → Step s (record s { phase = prepared k; is_subscribed = accepted })
    loop_start : {k : ℕ} → s.phase ≡ prepared k → Step s (record s { phase = running k })
    exchange :
        {k clock : ℕ} {e : Exchange}
        → s.phase ≡ running k
        → (st : Exchange.Step count s.exchange e) → Timely count st s.clock clock
        → Delivered count st s.is_subscribed
        → Step s (record s { exchange = e; clock = clock })
    -- The network thread is cancelled and joined. The calls of on_message are no cancellation
    -- points, so it is between two callbacks when it ends.
    loop_stop :
        {k : ℕ}
        → s.phase ≡ running k
        → s.exchange.main ≡ finished
        → s.exchange.net ≡ idle
        → Step s (record s { phase = stopped k; is_subscribed = false })
    summary :
        {k : ℕ}
        → s.phase ≡ stopped k
        → Step s (record s {
          phase = ready (k + 1);
          summaries = s.summaries ++ report count s.exchange ∷ [];
        })
    finish : {k : ℕ} → s.phase ≡ ready k → runs ≤ k → Step s (record s { phase = done })

  -- Any number of steps.
  pub data Steps (s : State) : State → Type 0 where
    here : Steps s s
    next : {t u : State} → Steps s t → Step t u → Steps s u
