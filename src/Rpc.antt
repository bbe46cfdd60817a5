-- ===== src/Rpc.antt =====
-- What the ping-pong benchmarks promise, whatever they send their messages by: one caller, which
-- makes `n` calls one after the other, and one server, which answers each call before the next is
-- made. ipc/ipc_mq_latency.c, scheduling/process/process_ctx_switch.c and
-- scheduling/threads/thread_ctx_switch.c are measured against it.
pub mod Refinements
mod Tests
use microkernel_benchmark.Prelude.{ℕ, ◌+◌, ◌<◌, ◌≤◌, ◌≡◌, ◌⊎◌, refl, arith}

-- Calls made, and calls answered.
pub record Calls : Type 0 where
  pub asked : ℕ
  pub answered : ℕ

module _ (n : ℕ) where
  pub data Move (c : Calls) (d : Calls) : Type 0 where
    ask :
        c.asked ≡ c.answered
        → c.asked < n
        → d ≡ record { asked = c.asked + 1; answered = c.answered }
        → Move c d
    answer :
        c.asked ≡ c.answered + 1
        → d ≡ record { asked = c.asked; answered = c.answered + 1 }
        → Move c d

  -- A step of a program is a move, or cannot be told from outside.
  abbrev pub Simulates : Calls → Calls → Type 0
  Simulates c d = (d ≡ c) ⊎ Move c d
