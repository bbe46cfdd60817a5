-- ===== src/Latency/Deadlines.antt =====
-- The three spellings of "one period later" in scheduling/latency.
use microkernel_benchmark.Prelude.{◌+◌, ◌≡◌, arith}
use microkernel_benchmark.Timespec.{Timespec, nanos, IsNormal, timespec_add}
use microkernel_benchmark.Latency.{period_ns}
use microkernel_benchmark.Latency.Jitter
use microkernel_benchmark.Latency.Deterministic

-- From a normal time the three programs move to the same deadline: one period later in nanoseconds,
-- and normal again, whether the carry is made by division or by subtracting one second.
pub advance-agree :
    (t : Timespec)
    → IsNormal t
    → (timespec_add t period_ns ≡ Jitter.advance t)
      × (Deterministic.advance t ≡ Jitter.advance t)
      × (nanos (Jitter.advance t) ≡ nanos t + period_ns)
      × IsNormal (Jitter.advance t)
unfolding timespec_add Jitter.advance Deterministic.advance
advance-agree t h = (ground arith, ground arith, ground arith, ground arith)
