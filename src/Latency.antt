-- ===== src/Latency.antt =====
-- scheduling/latency: three programs that sleep to absolute deadlines one millisecond apart and
-- report the worst deviation. What the kernel does in round `i` is an argument of the model, a
-- `Wake`.
pub mod MaxLatency
pub mod Jitter
pub mod Deterministic
pub mod Loaders
pub mod Worst
pub mod Deadlines
mod Tests
pub mod Results
pub mod Reports
use microkernel_benchmark.Prelude.{ℕ, Bool}
use microkernel_benchmark.Timespec.{Timespec}

-- Whether the sleep of the round succeeded, and the clock after it.
pub record Wake : Type 0 where
  pub slept : Bool
  pub now : Timespec

-- PERIOD_NS and ITERATIONS, which the three programs share.
abbrev pub period_ns : ℕ
period_ns = 1_000_000

abbrev pub iterations : ℕ
iterations = 10_000
