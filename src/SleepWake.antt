-- ===== src/SleepWake.antt =====
-- scheduling/process/sleep_wake_process.c and scheduling/threads/sleep_wake_thread.c: sleeps of 10
-- ms whose delays are added up. The totals are taken without a bound: a long holds 292 years.
pub mod Lateness
pub mod Processes
pub mod Threads
pub mod Loads
mod Tests
use microkernel_benchmark.Prelude.{
  ℕ, zero, suc, ◌+◌, Option, none, some, List, [], ◌∷◌, Bool, true, false, if◌then◌else◌,
}
use microkernel_benchmark.Prelude.Int.{ℤ, pos, ltb_ℤ, ◌≤ℤ◌, ◌+ℤ◌, ◌-ℤ◌, ◌*ℤ◌}
use microkernel_benchmark.CString.{Bytes, atoi}
use microkernel_benchmark.Timespec.{Timespec, nsec_per_sec}

abbrev pub sleep_interval_ns : ℕ
sleep_interval_ns = 10_000_000

-- The readings of the clock before and after one sleep.
pub record Sleep : Type 0 where
  pub before : Timespec
  pub after : Timespec

-- sleep_proc_sofart and sleep_thread_sofart
pub record SleepData : Type 0 where
  pub id : ℕ
  pub total_jitter_ns : ℤ
  pub iterations : ℕ

unfoldable pub jitter : Sleep → ℤ
jitter s =
    let elapsed_ns =
      (pos s.after.tv_sec -ℤ pos s.before.tv_sec) *ℤ pos nsec_per_sec
      +ℤ (pos s.after.tv_nsec -ℤ pos s.before.tv_nsec) in
    let late = elapsed_ns -ℤ pos sleep_interval_ns in if ltb_ℤ late (pos 0) then pos 0 else late

unfoldable pub record_sleep : SleepData → Sleep → SleepData
unfolding jitter ◌+ℤ◌
record_sleep sofar s = record {
  id = sofar.id;
  total_jitter_ns = sofar.total_jitter_ns +ℤ jitter s;
  iterations = sofar.iterations + 1;
}

abbrev pub fresh : ℕ → SleepData
fresh i = record { id = i; total_jitter_ns = pos 0; iterations = 0 }

-- The loop of `sleep_proc_function`, in its round `k`: the clock is looked at behind each sleep,
-- and `expired k` says whether that look finds the test over. `none` is a loop that is still
-- running.
unfoldable pub sleep_loop : (ℕ → Sleep) → (ℕ → Bool) → ℕ → ℕ → SleepData → Option SleepData
unfolding record_sleep
sleep_loop sleeps expired zero k sofar = none
sleep_loop sleeps expired (suc fuel) k sofar = elim (expired k) [
  | true ↦ some (record_sleep sofar (sleeps k))
  | false ↦ sleep_loop sleeps expired fuel (k + 1) (record_sleep sofar (sleeps k))
]

-- The loop of `sleep_thread_function`: the sleeps made before `stop` is seen.
unfoldable pub thread_loop : List Sleep → SleepData → SleepData
unfolding record_sleep
thread_loop [] sofar = sofar
thread_loop (s ∷ sleeps) sofar = thread_loop sleeps (record_sleep sofar s)

abbrev pub default_sleepers : ℕ
default_sleepers = 2

abbrev pub default_loaders : ℕ
default_loaders = 2

-- `num_sleep_procs` and `num_sleep_threads` from the arguments behind the program's name.
unfoldable pub num_sleepers : List Bytes → ℤ
unfolding atoi
num_sleepers [] = pos default_sleepers
num_sleepers (arg ∷ _) = if ltb_ℤ (pos 0) (atoi arg) then atoi arg else pos default_sleepers

-- `num_load_procs` and `num_load_threads`, which may be 0.
unfoldable pub num_loaders : List Bytes → ℤ
unfolding atoi
num_loaders [] = pos default_loaders
num_loaders (_ ∷ []) = pos default_loaders
num_loaders (_ ∷ arg ∷ _) = if ltb_ℤ (atoi arg) (pos 0) then pos default_loaders else atoi arg
