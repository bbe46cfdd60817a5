-- ===== src/Rpc/Tests.antt =====
-- Instances of the refinements: the first answer of each server.
use microkernel_benchmark.Prelude.{ℕ, refl, arith, List, []}
use microkernel_benchmark.Timespec.{Timespec}
use microkernel_benchmark.Rpc.{Simulates}
use microkernel_benchmark.Rpc.Refinements.{process-refines, queues-refine, threads-refine}
use microkernel_benchmark.Ipc.{MessageQueue, iterations, list_queue}
use microkernel_benchmark.Ipc.TwoQueues
use microkernel_benchmark.ProcessSwitch
use microkernel_benchmark.Threads.PingPong

abbrev with_child : ProcessSwitch.State
with_child = record {
  p2c = [];
  c2p = [];
  parent = ProcessSwitch.Parent.reading 0;
  child = ProcessSwitch.Child.writing 0;
  parent_buf = 0;
  child_buf = 0;
}

with_child_reached : ProcessSwitch.Reach 3 (ProcessSwitch.init 7) with_child
with_child_reached =
    ProcessSwitch.next
      (ProcessSwitch.next ProcessSwitch.here (ProcessSwitch.parent_write refl (omega arith) refl))
      (ProcessSwitch.child_read refl (omega arith) refl)

process-refines_example :
    Simulates 3 (record { asked = 1; answered = 0 }) (record { asked = 1; answered = 1 })
process-refines_example = process-refines 3 with_child_reached (ProcessSwitch.child_write refl refl)

abbrev tick : Timespec
tick = record { tv_sec = 1; tv_nsec = 0 }

abbrev lists : MessageQueue (List ℕ)
lists = list_queue (List ℕ)

queues-refine_run :
    Simulates iterations (record { asked = 0; answered = 0 }) (record { asked = 1; answered = 0 })
queues-refine_run =
    queues-refine lists {garbage = []} TwoQueues.Clean.here
      (TwoQueues.parent_send tick refl (omega arith))

threads-refine_example :
    Simulates 2 (record { asked = 0; answered = 0 }) (record { asked = 1; answered = 0 })
threads-refine_example =
    threads-refine 2 (PingPong.next PingPong.here (PingPong.ping_lock refl (omega arith) refl))
      (PingPong.serve refl)
