-- ===== src/Timespec/Laws.antt =====
-- Adding to a `struct timespec` and subtracting two of them is arithmetic on nanoseconds.
use microkernel_benchmark.Prelude.{ℕ, ◌+◌, ◌≡◌, arith}
use microkernel_benchmark.Prelude.Int.{pos, sub_ℕ, ◌+ℤ◌, ◌-ℤ◌, ◌*ℤ◌}
use microkernel_benchmark.Timespec.{Timespec, nsec_per_sec, nanos, timespec_add, timespec_diff_ns}

pub nanos-timespec_add : (t : Timespec) (ns : ℕ) → nanos (timespec_add t ns) ≡ nanos t + ns
unfolding timespec_add
nanos-timespec_add t ns = ground arith

-- Seconds and nanoseconds are subtracted apart, in the integers.
pub difference :
    (end start : Timespec)
    → (pos end.tv_sec -ℤ pos start.tv_sec) *ℤ pos nsec_per_sec
        +ℤ (pos end.tv_nsec -ℤ pos start.tv_nsec)
      ≡ sub_ℕ (nanos end) (nanos start)
unfolding ◌+ℤ◌ ◌-ℤ◌ ◌*ℤ◌
difference end start = ground arith

pub timespec_diff_ns-nanos :
    (end start : Timespec) → timespec_diff_ns end start ≡ sub_ℕ (nanos end) (nanos start)
unfolding timespec_diff_ns
timespec_diff_ns-nanos end start = difference end start
