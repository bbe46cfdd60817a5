-- ===== src/Timespec.antt =====
-- `struct timespec` and the arithmetic on it that the latency, ipc, process and thread benchmarks
-- repeat. A reading of CLOCK_MONOTONIC is not negative, so both fields are natural numbers; a
-- difference is an integer.
pub mod Laws
use microkernel_benchmark.Prelude.{
  ℕ, ◌+◌, ◌-◌, ◌*◌, ◌/◌, ◌%◌, ◌<◌, ◌≡◌, refl, arith, leb, if◌then◌else◌,
}
use microkernel_benchmark.Prelude.Int.{ℤ, pos, ◌+ℤ◌, ◌-ℤ◌, ◌*ℤ◌}

pub record Timespec : Type 0 where
  pub tv_sec : ℕ
  pub tv_nsec : ℕ

abbrev pub nsec_per_sec : ℕ
nsec_per_sec = 1_000_000_000

-- The nanoseconds since the clock's origin.
abbrev pub nanos : Timespec → ℕ
nanos t = t.tv_sec * nsec_per_sec + t.tv_nsec

-- The kernel returns, and expects, fewer than 10^9 nanoseconds in `tv_nsec`.
abbrev pub IsNormal : Timespec → Type 0
IsNormal t = t.tv_nsec < nsec_per_sec

-- `timespec_add` of max_latency_scheduling.c.
unfoldable pub timespec_add : Timespec → ℕ → Timespec
timespec_add t ns =
    let nsec = t.tv_nsec + ns in
    if leb nsec_per_sec nsec
    then record { tv_sec = t.tv_sec + nsec / nsec_per_sec; tv_nsec = nsec % nsec_per_sec }
    else record { tv_sec = t.tv_sec; tv_nsec = nsec }

-- `timespec_diff_ns` of max_latency_scheduling.c.
unfoldable pub timespec_diff_ns : Timespec → Timespec → ℤ
timespec_diff_ns end start =
    (pos end.tv_sec -ℤ pos start.tv_sec) *ℤ pos nsec_per_sec
    +ℤ (pos end.tv_nsec -ℤ pos start.tv_nsec)
