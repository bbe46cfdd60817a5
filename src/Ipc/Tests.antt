-- ===== src/Ipc/Tests.antt =====
-- Instances of the theorems on ipc, over queues that are lists.
use mathlib.Core.WellFounded.{Acc}
use microkernel_benchmark.Prelude.{
  inl, All, false, true, ℕ, ◌+◌, ◌≤◌, ◌≡◌, refl, ◌⊎◌, arith, String, List, [], ◌∷◌, length,
}
use microkernel_benchmark.Prelude.Int.{pos}
use microkernel_benchmark.Timespec.{Timespec}
use microkernel_benchmark.Ipc.{MessageQueue, iterations, list_queue}
use microkernel_benchmark.Ipc.SharedQueue
use microkernel_benchmark.Ipc.SharedQueue.Behaviour.{one_ping, round_trips_without_child, Pings}
use microkernel_benchmark.Ipc.TwoQueues
use microkernel_benchmark.Ipc.TwoQueues.{payload}
use microkernel_benchmark.Ipc.TwoQueues.Behaviour.{
  parent_rounds, child_rounds, rounds-echoed, payload_intact,
}
use microkernel_benchmark.Ipc.TwoQueues.Progress.{never_stuck}
use microkernel_benchmark.Ipc.SharedQueue.Teardown
use microkernel_benchmark.Ipc.SharedQueue.Teardown.{
  deferred, asynchronous, Load, cancelling, joining, returned,
}
use microkernel_benchmark.Ipc.SharedQueue.Teardown.Hanging.{Early, never_ends}
use microkernel_benchmark.Ipc.TwoQueues.Teardown as Ending

abbrev tick : Timespec
tick = record { tv_sec = 1; tv_nsec = 0 }

abbrev lists : MessageQueue (List ℕ)
lists = list_queue (List ℕ)

-- The parent has sent, the child has received.
abbrev asked : TwoQueues.State lists
asked = record {
  ptoc = [];
  ctop = [];
  parent = TwoQueues.receiving 0 tick;
  child = TwoQueues.replying 0;
  parent_buffer = payload;
  child_buffer = payload;
  max_latency = pos 0;
}

asked_cleanly : TwoQueues.Clean lists (TwoQueues.init lists []) asked
asked_cleanly =
    TwoQueues.Clean.next
      (TwoQueues.Clean.next TwoQueues.Clean.here (TwoQueues.parent_send tick refl (omega arith)))
      (TwoQueues.child_receive refl (omega arith) refl)

asked_reached : TwoQueues.Reach lists (TwoQueues.init lists []) asked
asked_reached =
    TwoQueues.Reach.next
      (TwoQueues.Reach.next TwoQueues.Reach.here (TwoQueues.parent_send tick refl (omega arith)))
      (TwoQueues.child_receive refl (omega arith) refl)

rounds-echoed_example :
    (length {A = List ℕ} [] + length {A = List ℕ} [] ≤ 1)
    × (child_rounds asked.child ≡ parent_rounds asked.parent + length {A = List ℕ} [])
rounds-echoed_example = rounds-echoed lists asked_reached

payload_intact_run :
    (asked.parent_buffer ≡ payload)
    × All (λ m. m ≡ payload) asked.ptoc
    × All (λ m. m ≡ payload) asked.ctop
payload_intact_run = payload_intact lists asked_reached

never_stuck_example :
    (asked.parent ≡ TwoQueues.reporting iterations)
    ⊎ ((t : TwoQueues.State lists) × TwoQueues.Step lists asked t)
never_stuck_example = never_stuck lists asked_cleanly

abbrev pinged : SharedQueue.State (list_queue String)
pinged = record {
  queue = "ping" ∷ [];
  parent = SharedQueue.receiving 0 tick;
  child = SharedQueue.waiting 0;
  parent_buffer = "ping";
  child_buffer = "";
  max_latency = pos 0;
}

pinged_reached :
    SharedQueue.Reach (list_queue String) (SharedQueue.init (list_queue String) "") pinged
pinged_reached = SharedQueue.next SharedQueue.here (SharedQueue.parent_send tick refl (omega arith))

one_ping_run : (1 ≤ 1) × Pings ("ping" ∷ []) × (pinged.parent_buffer ≡ "ping")
one_ping_run = one_ping (list_queue String) pinged_reached

round_trips_without_child_example :
    (s : SharedQueue.State (list_queue String)) × SharedQueue.Reach
      (list_queue String)
      (SharedQueue.init (list_queue String) "")
      s
    × (s.parent ≡ SharedQueue.sending 10_000)
    × (s.child ≡ SharedQueue.waiting 0)
round_trips_without_child_example =
    round_trips_without_child (list_queue String) "" 10_000 (omega arith)

-- The first load thread has been asked to end, and counts on.
abbrev told : Teardown.State
told = record {
  tail = joining 0;
  loads = Load.cancelled 7 ∷ Load.counting 8 ∷ Load.counting 9 ∷ [];
  child_killed = true;
  closed = false;
  unlinked = false;
}

told_reached : (type : Teardown.CancelType) → Teardown.Reach type (Teardown.init 7 8 9) told
told_reached type =
    Teardown.Reach.next
      (Teardown.Reach.next Teardown.Reach.here (λ e. ground arith) (Teardown.kill refl))
      (λ e. ground arith) (Teardown.cancel 0 7 refl (omega arith) refl)

never_ends_example :
    Early told.tail
    × (told.closed ≡ false)
    × (told.unlinked ≡ false)
    × (t : Teardown.State) × Teardown.Step deferred told t
never_ends_example = never_ends (told_reached deferred)

-- With asynchronous cancellation, which the program does not ask for, it gets past the first
-- thread.
past_first : Teardown.Reach asynchronous (Teardown.init 7 8 9) (record told {
  tail = cancelling 1;
  loads = Load.ended ∷ Load.counting 8 ∷ Load.counting 9 ∷ [];
})
past_first =
    Teardown.Reach.next
      (Teardown.Reach.next (told_reached asynchronous) (λ e. ground arith)
        (Teardown.act 0 7 refl refl))
      (λ e. ground arith) (Teardown.join 0 refl refl)

-- The child of ipc_mq_latency.c is killed while it waits for a message.
abbrev killed : Ending.State
killed = record {
  tail = Ending.awaiting;
  child = Ending.ended;
  ptoc_open = false;
  ctop_open = false;
  ptoc_linked = false;
  ctop_linked = false;
}

clears_up_run :
    (Ending.IsCleared killed ⊎ ((t : Ending.State) × Ending.Step killed t))
    × Acc Ending.After killed
clears_up_run = Ending.clears_up (inl refl) (
    Ending.Reach.next
      (Ending.Reach.next (Ending.Reach.next Ending.Reach.here (Ending.close refl))
        (Ending.remove refl))
      (Ending.kill_running refl refl))
