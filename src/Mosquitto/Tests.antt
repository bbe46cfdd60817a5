-- ===== src/Mosquitto/Tests.antt =====
-- Runs of the mosquitto programs on small inputs, and instances of the theorems about them.
use mathlib.Core.List.Perm
use microkernel_benchmark.Prelude.{
  All, Any, ℕ, ◌<◌, ◌≤◌, ◌≡◌, ◌≢◌, ◌⊎◌, ◌↔◌, refl, arith, List, [], ◌∷◌, length, Bool, true, false,
}
use microkernel_benchmark.Prelude.Int.{pos, negsuc, sub_ℕ, ◌+ℤ◌, ◌-ℤ◌}
use microkernel_benchmark.Mosquitto.Exchange.{
  free, by_main, publishing, sleeping, woken, finished, Net, idle, Exchange, init, on_message, Step,
  publish, published, lock, wait, spurious, relock, leave, unlock, message, net_lock, net_signal,
  net_unlock, Reach, here, next,
}
use microkernel_benchmark.Mosquitto.Wait.{
  IsComing, IsDeliberate, rank, no_lost_wakeup, finished_complete, wait_ends, Step-rank,
}
use microkernel_benchmark.Mosquitto.Summary.{start, llong_max, summarise}
use microkernel_benchmark.Mosquitto.Summary.Facts.{
  sum, latencies, Between, FromOr, total-perm, summarise-extremes,
}
use microkernel_benchmark.Mosquitto.Processes.{refused, child_is}
use microkernel_benchmark.Mosquitto.Burst
use microkernel_benchmark.Mosquitto.Session
use microkernel_benchmark.Mosquitto.Session.Figures.{figures_fresh}
use microkernel_benchmark.Mosquitto.Session.Silence.{unsubscribed_hangs}
use microkernel_benchmark.Mosquitto.CpuLoad.{start_load, stop_load}
use microkernel_benchmark.Mosquitto.Kills.{target, KillsAll, stop_load-KillsAll, stop_broker-target}

abbrev blank : List ℕ
blank = 0 ∷ []

-- One message: sent at 5, received at 9 while `main` sleeps.
abbrev asleep : Exchange
asleep = record {
  send_times = 5 ∷ [];
  recv_times = 9 ∷ [];
  recv_count = 1;
  mutex = free;
  main = sleeping;
  net = Net.locking;
}

abbrev through : Exchange
through = record asleep { main = finished; net = idle }

asleep_reached : Reach 1 (init 1 blank blank) asleep
unfolding on_message
asleep_reached =
    next
      (next
        (next (next (next here (publish 5 refl (omega arith))) (published refl (omega arith)))
          (lock refl refl))
        (wait refl (omega arith)))
      (message 9 refl)

through_reached : Reach 1 (init 1 blank blank) through
through_reached =
    next
      (next
        (next
          (next (next (next asleep_reached (net_lock refl refl)) (net_signal refl))
            (net_unlock refl))
          (relock refl refl))
        (leave refl (omega arith)))
      (unlock refl)

no_lost_wakeup_run : IsComing asleep.net
no_lost_wakeup_run = no_lost_wakeup 1 asleep_reached refl refl

finished_complete_run : (through.recv_count ≡ 1) × (through.mutex ≢ by_main)
finished_complete_run = finished_complete 1 through_reached refl

wait_ends_example :
    ((asleep.main ≡ finished)
      ⊎ ((t : Exchange) × (st : Step 1 asleep t) × IsDeliberate 1 st × (rank 1 t < rank 1 asleep)))
    × ((t : Exchange) → Step 1 asleep t → rank 1 t ≤ rank 1 asleep)
wait_ends_example = wait_ends 1 asleep_reached refl

Step-rank_run : rank 1 (record asleep { mutex = free; main = woken }) ≤ rank 1 asleep
Step-rank_run = Step-rank 1 {s = asleep} (spurious refl) refl

total_runs :
    summarise (9 ∷ 20 ∷ []) (5 ∷ 21 ∷ []) start
    ≡ record { total = pos 3; min = negsuc 0; max = pos 4 }
unfolding summarise ◌+ℤ◌ ◌-ℤ◌
total_runs = refl

total-perm_run :
    ((summarise (9 ∷ 20 ∷ []) (5 ∷ 6 ∷ []) start).total
      ≡ sub_ℕ (sum (9 ∷ 20 ∷ [])) (sum (5 ∷ 6 ∷ [])))
    × ((summarise (20 ∷ 9 ∷ []) (5 ∷ 6 ∷ []) start).total
        ≡ (summarise (9 ∷ 20 ∷ []) (5 ∷ 6 ∷ []) start).total)
total-perm_run = total-perm (5 ∷ 6 ∷ []) refl refl (Perm.swap 20 9 [])

summarise-extremes_example :
    All
      (Between (summarise (9 ∷ []) (5 ∷ []) start).min (summarise (9 ∷ []) (5 ∷ []) start).max)
      (latencies (9 ∷ []) (5 ∷ []))
    × FromOr llong_max (latencies (9 ∷ []) (5 ∷ [])) (summarise (9 ∷ []) (5 ∷ []) start).min
    × FromOr (pos 0) (latencies (9 ∷ []) (5 ∷ [])) (summarise (9 ∷ []) (5 ∷ []) start).max
summarise-extremes_example = summarise-extremes (9 ∷ []) (5 ∷ [])

stop_load-KillsAll_example :
    Any (λ f. f ≡ refused) (child_is 7 ∷ refused ∷ [])
    ↔ Any KillsAll (stop_load (start_load (child_is 7 ∷ refused ∷ [])))
stop_load-KillsAll_example = stop_load-KillsAll (child_is 7 ∷ refused ∷ [])

stop_broker-target_run :
    All
      (λ c. (0 < target c) × (child_is 7 ≡ child_is (target c)))
      (Burst.stop_broker (Burst.start_broker (child_is 7)))
stop_broker-target_run = stop_broker-target (child_is 7)

-- One run of one message: sent at 5, received at 9, the network thread then stopped.
abbrev in_run : Bool → Session.State
in_run accepted = record (Session.init 1) { phase = Session.running 0; is_subscribed = accepted }

in_run_reached : (accepted : Bool) → Session.Steps 1 1 (Session.init 1) (in_run accepted)
unfolding Session.restart
in_run_reached accepted =
    let at_start : Session.Steps 1 1 (Session.init 1) (Session.init 1) = Session.here in
    let begun = Session.next at_start (Session.begin {k = 0} refl (omega arith)) in
    let connected = Session.next begun (Session.connect accepted refl) in
    Session.next connected (Session.loop_start refl)

abbrev halted : Session.State
halted = record {
  phase = Session.stopped 0;
  exchange = through;
  is_subscribed = false;
  clock = 9;
  since = 0;
  summaries = [];
}

halted_reached : Session.Steps 1 1 (Session.init 1) halted
unfolding on_message
halted_reached =
    let sent =
      Session.next (in_run_reached true)
        (Session.exchange {clock = 5} refl (publish 5 refl (omega arith)) (omega arith, refl) tt) in
    let all_sent =
      Session.next sent (Session.exchange refl (published refl (omega arith)) refl tt) in
    let locked = Session.next all_sent (Session.exchange refl (lock refl refl) refl tt) in
    let asleep_ = Session.next locked (Session.exchange refl (wait refl (omega arith)) refl tt) in
    let come =
      Session.next asleep_
        (Session.exchange {clock = 9} refl (message 9 refl) (omega arith, refl) refl) in
    let net_locked = Session.next come (Session.exchange refl (net_lock refl refl) refl tt) in
    let signalled = Session.next net_locked (Session.exchange refl (net_signal refl) refl tt) in
    let unlocked = Session.next signalled (Session.exchange refl (net_unlock refl) refl tt) in
    let awake = Session.next unlocked (Session.exchange refl (relock refl refl) refl tt) in
    let left = Session.next awake (Session.exchange refl (leave refl (omega arith)) refl tt) in
    let out = Session.next left (Session.exchange refl (unlock refl) refl tt) in
    Session.next out (Session.loop_stop refl refl refl)

figures_fresh_example :
    Session.Figures.Complete 1 halted
    × (halted.exchange.mutex ≡ free)
    × (length halted.summaries ≡ 0)
figures_fresh_example = figures_fresh 1 1 halted_reached refl

-- Without a subscription the message is sent and never comes.
abbrev sent_off : Session.State
sent_off = record (in_run false) {
  exchange = record asleep { recv_times = 0 ∷ []; recv_count = 0; main = publishing 1; net = idle };
  clock = 5;
}

sending : Session.Steps 1 1 (in_run false) sent_off
sending =
    let at_start : Session.Steps 1 1 (in_run false) (in_run false) = Session.here in
    Session.next at_start
      (Session.exchange {clock = 5} refl (publish 5 refl (omega arith)) (omega arith, refl) tt)

unsubscribed_hangs_example :
    (sent_off.phase ≡ Session.running 0)
    × (sent_off.exchange.recv_count ≡ 0)
    × (sent_off.summaries ≡ (in_run false).summaries)
    × (sent_off.exchange.main ≢ finished)
unsubscribed_hangs_example =
    unsubscribed_hangs 1 (omega arith) 1 (in_run_reached false) refl refl sending
