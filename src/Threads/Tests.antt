-- ===== src/Threads/Tests.antt =====
-- Instances of the theorems on scheduling/threads: one round, with `pong_thread` asleep first.
use mathlib.Core.WellFounded.{Acc}
use microkernel_benchmark.Prelude.{◌+◌, ◌≤◌, ◌<◌, ◌≡◌, ◌⊎◌, refl, arith, true, [], ◌∷◌}
use microkernel_benchmark.Threads.PingPong.{
  free, by_pong, Ping, joining, Pong, returned, State, Step, ping_lock, serve, ping_wait, pong_lock,
  pong_wait, pong_relock, Reach, here, next,
}
use microkernel_benchmark.Threads.PingPong.Alternation.{
  calls, replies, ping_owns, pong_owns, calls_answered,
}
use microkernel_benchmark.Threads.PingPong.Progress.{
  rank, deadlock_free, Step-descends, always_moves,
}
use microkernel_benchmark.Threads.PingPong
use microkernel_benchmark.Threads.Counting
use microkernel_benchmark.Threads.Counting.Counts.{settled_report}
use microkernel_benchmark.Threads.Counting.Settling.{settles}

-- `main` has passed the turn and sleeps, `pong_thread` is woken.
abbrev served : State
served = record { turn = 1; mutex = free; ping = Ping.sleeping 0; pong = Pong.woken 0 }

served_reached : Reach 1 served
served_reached =
    next
      (next
        (next (next (next here (pong_lock refl (omega arith) refl)) (pong_wait refl (omega arith)))
          (ping_lock refl (omega arith) refl))
        (serve refl))
      (ping_wait refl (omega arith))

calls_answered_example :
    (replies 1 served.pong + served.turn ≡ calls 1 served.ping)
    × (served.turn ≤ 1)
    × (ping_owns served.ping + pong_owns served.pong ≤ 1)
calls_answered_example = calls_answered 1 served_reached

deadlock_free_run :
    ((served.ping ≡ joining) × (served.pong ≡ returned)) ⊎ ((t : State) × Step 1 served t)
deadlock_free_run = deadlock_free 1 served_reached

always_moves_example :
    (((served.ping ≡ joining) × (served.pong ≡ returned)) ⊎ ((t : State) × Step 1 served t))
    × Acc (PingPong.Progress.After 1) served
always_moves_example = always_moves 1 served_reached

Step-descends_run :
    rank 1 (record { turn = 1; mutex = by_pong; ping = Ping.sleeping 0; pong = Pong.testing 0 })
    < rank 1 served
Step-descends_run = Step-descends 1 served_reached (pong_relock refl refl)

-- One thread has found the flag clear when it is set; it counts once more.
abbrev flagged : Counting.State
flagged = record {
  stop = true;
  main = Counting.joining 0;
  threads = Counting.counting 0 ∷ [];
  printed = [];
}

flagged_reached : Counting.Steps 1 Counting.init flagged
flagged_reached =
    let made =
      Counting.Steps.next Counting.Steps.here (λ e. ground arith)
        (Counting.create {i = 0} refl (omega arith)) in
    let all =
      Counting.Steps.next made (λ e. ground arith) (Counting.sleep {i = 1} refl (omega arith)) in
    let begun = Counting.Steps.next all (λ e. ground arith) (Counting.see_clear 0 0 refl refl) in
    Counting.Steps.next begun (λ e. ground arith) (Counting.set_stop refl)

abbrev counted : Counting.State
counted = record flagged { threads = Counting.testing 1 ∷ [] }

settles_example :
    (((counted.main ≡ Counting.returned) × (counted.printed ≡ settled_report 0 flagged.threads))
      ⊎ ((u : Counting.State) × Counting.Step 1 counted u))
    × Acc (Counting.Settling.After 1) counted
settles_example =
    settles 1 flagged_reached refl
      (Counting.Steps.next Counting.Steps.here (λ e. ground arith) (Counting.count 0 0 refl))
