-- ===== src/Priority.antt =====
-- scheduling/priority: three threads of low, medium and high priority. The low one holds a mutex
-- that the high one wants, and the high one prints how long it waited.
pub mod Setup
pub mod Mutex
pub mod Dispatch
pub mod Qnx
pub mod Linux
mod Tests
use microkernel_benchmark.Prelude.{ℕ, ◌+◌, ◌-◌, ◌*◌, ◌/◌, ◌%◌, ◌^◌}
use microkernel_benchmark.Timespec.{Timespec}

abbrev pub hold_ns : ℕ
hold_ns = 50_000_000

abbrev pub med_ns : ℕ
med_ns = 200_000_000

-- In 64 bits, which hold 584 years.
unfoldable pub now_ns : Timespec → ℕ
now_ns ts = (ts.tv_sec * 1_000_000_000 + ts.tv_nsec) % 2 ^ 64

-- The figure that is printed, of two readings in order.
unfoldable pub waited_ms : ℕ → ℕ → ℕ
waited_ms t0 t1 = (t1 - t0) / 1_000_000

-- Who has the mutex.
pub data Owner : Type 0 where
  free : Owner
  low_owns : Owner
  high_owns : Owner
