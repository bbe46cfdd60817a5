-- ===== src/Rpc/Refinements.antt =====
-- The three ping-pong programs seen as exchanges of calls and answers.
use microkernel_benchmark.Prelude.{ℕ, ◌+◌, inl, inr, arith, List}
use microkernel_benchmark.Rpc.{Calls, ask, answer, Simulates}
use microkernel_benchmark.Ipc.{MessageQueue, iterations}
use microkernel_benchmark.Ipc.TwoQueues
use microkernel_benchmark.Ipc.TwoQueues.Behaviour
use microkernel_benchmark.Ipc.TwoQueues.Progress.{wanted, CleanInv, init-CleanInv, Clean-CleanInv}
use microkernel_benchmark.ProcessSwitch
use microkernel_benchmark.ProcessSwitch.{Parent, Child}
use microkernel_benchmark.ProcessSwitch.Echo
use microkernel_benchmark.Threads.PingPong
use microkernel_benchmark.Threads.PingPong.Alternation.{calls, replies}
use microkernel_benchmark.Threads.PingPong.Alternation

-- process_ctx_switch.c: the bytes that the parent has written, and those that the child has.
abbrev pub bytes_written : Parent → ℕ
bytes_written p = Echo.parent_rounds p + Echo.awaited p

abbrev pub process_view : ProcessSwitch.State → Calls
process_view s = record { asked = bytes_written s.parent; answered = Echo.child_rounds s.child }

process_step :
    (n : ℕ) {s t : ProcessSwitch.State}
    → ProcessSwitch.Step n s t
    → Echo.Inv n s
    → Simulates n (process_view s) (process_view t)
process_step n (ProcessSwitch.parent_write e lt live) v =
    inr (ask (ground arith) (ground arith) (ground arith))
process_step n (ProcessSwitch.parent_sigpipe e lt gone) v = inl (ground arith)
process_step n (ProcessSwitch.parent_read e q) v = inl (ground arith)
process_step n (ProcessSwitch.parent_end_of_file e q gone) v = inl (ground arith)
process_step n (ProcessSwitch.parent_report e le) v = inl (ground arith)
process_step n (ProcessSwitch.parent_return e gone) v = inl (ground arith)
process_step n (ProcessSwitch.child_read e lt q) v = inl (ground arith)
process_step n (ProcessSwitch.child_end_of_file e lt q gone) v = inl (ground arith)
process_step n (ProcessSwitch.child_write e live) v = inr (answer (ground arith) (ground arith))
process_step n (ProcessSwitch.child_sigpipe e gone) v = inl (ground arith)
process_step n (ProcessSwitch.child_exit e le) v = inl (ground arith)

-- process_ctx_switch.c, in every reachable state, also after calls that failed: a step is a call of
-- the parent, which it makes only when all calls before are answered, an answer of the child to the
-- one call that is open, or changes neither count.
pub process-refines :
    (n : ℕ) {garbage : ℕ} {s t : ProcessSwitch.State}
    → ProcessSwitch.Reach n (ProcessSwitch.init garbage) s
    → ProcessSwitch.Step n s t
    → Simulates n (process_view s) (process_view t)
process-refines n r st = process_step n st (Echo.Reach-Inv n r)

-- ipc_mq_latency.c: the messages that the parent has sent, and those that the child has.
abbrev pub messages_sent : TwoQueues.Parent → ℕ
messages_sent p = Behaviour.parent_rounds p + wanted p

module _ (mq : MessageQueue (List ℕ)) where
  abbrev pub queue_view : TwoQueues.State mq → Calls
  queue_view s = record {
    asked = messages_sent s.parent;
    answered = Behaviour.child_rounds s.child;
  }

  queue_step :
      {s t : TwoQueues.State mq}
      → TwoQueues.Step mq s t
      → CleanInv mq s
      → Simulates iterations (queue_view s) (queue_view t)
  queue_step (TwoQueues.parent_send start e lt) v =
      inr (ask (ground arith) (ground arith) (ground arith))
  queue_step (TwoQueues.parent_receive end e r) v = inl (ground arith)
  queue_step (TwoQueues.parent_finish e le) v = inl (ground arith)
  queue_step (TwoQueues.child_receive e lt r) v = inl (ground arith)
  queue_step (TwoQueues.child_send e) v = inr (answer (ground arith) (ground arith))
  queue_step (TwoQueues.child_finish e le) v = inl (ground arith)

  -- ipc_mq_latency.c, while every call succeeds: a step is a message of the parent, which it sends
  -- only when all messages before are answered, an answer of the child to the one message that is
  -- open, or changes neither count.
  pub queues-refine :
      {garbage : List ℕ} {s t : TwoQueues.State mq}
      → TwoQueues.Clean mq (TwoQueues.init mq garbage) s
      → TwoQueues.Step mq s t
      → Simulates iterations (queue_view s) (queue_view t)
  queues-refine {garbage} r st = queue_step st (Clean-CleanInv mq r (init-CleanInv mq garbage))

-- thread_ctx_switch.c: how often each thread has passed the turn.
abbrev pub thread_view : ℕ → PingPong.State → Calls
thread_view n s = record { asked = calls n s.ping; answered = replies n s.pong }

thread_step :
    (n : ℕ) {s t : PingPong.State}
    → PingPong.Step n s t
    → Alternation.Inv n s
    → Simulates n (thread_view n s) (thread_view n t)
thread_step n (PingPong.ping_lock e lt f) v = inl (ground arith)
thread_step n (PingPong.serve e) v = inr (ask (ground arith) (ground arith) (ground arith))
thread_step n (PingPong.ping_wait e ne) v = inl (ground arith)
thread_step n (PingPong.ping_relock e f) v = inl (ground arith)
thread_step n (PingPong.ping_pass e z) v = inl (ground arith)
thread_step n (PingPong.ping_unlock e) v = inl (ground arith)
thread_step n (PingPong.ping_end e le) v = inl (ground arith)
thread_step n (PingPong.pong_lock e lt f) v = inl (ground arith)
thread_step n (PingPong.pong_wait e ne) v = inl (ground arith)
thread_step n (PingPong.pong_relock e f) v = inl (ground arith)
thread_step n (PingPong.reply e one) v = inr (answer (ground arith) (ground arith))
thread_step n (PingPong.pong_unlock e) v = inl (ground arith)
thread_step n (PingPong.pong_end e le) v = inl (ground arith)

-- thread_ctx_switch.c, in every reachable state: a step is a call of `main`, which it makes only
-- when all calls before are answered, an answer of `pong_thread` to the one call that is open, or
-- changes neither count.
pub threads-refine :
    (n : ℕ) {s t : PingPong.State}
    → PingPong.Reach n s
    → PingPong.Step n s t
    → Simulates n (thread_view n s) (thread_view n t)
threads-refine n r st = thread_step n st (Alternation.Reach-Inv n r)
