-- ===== src/SleepWake/Processes/Child.antt =====
-- `sleep_proc_function` of sleep_wake_process.c with each reading of the clock, which may fail.
pub mod Account
use microkernel_benchmark.Prelude.{
  ℕ, zero, suc, ◌+◌, ◌*◌, Option, none, some, Bool, true, false, if◌then◌else◌,
}
use microkernel_benchmark.Prelude.Int.{pos, ltb_ℤ, ◌+ℤ◌, ◌-ℤ◌, ◌*ℤ◌}
use microkernel_benchmark.Timespec.{Timespec, nsec_per_sec}
use microkernel_benchmark.SleepWake.{SleepData, record_sleep, fresh}

abbrev pub test_duration : ℕ
test_duration = 5

-- What `clock_gettime` gives at the start, and in round `k` before the sleep, behind it, and for the
-- look at the end of the round; `none` is a call that fails.
pub record Clock : Type 0 where
  pub test_start : Option Timespec
  pub before : ℕ → Option Timespec
  pub after : ℕ → Option Timespec
  pub now : ℕ → Option Timespec

-- How the process stands: in its loop when the fuel is used up, or ended, and then with what it
-- writes to its pipe.
pub data Outcome : Type 0 where
  running : Outcome
  exit_failure : Outcome
  exit_success : (written : SleepData) → Outcome

abbrev pub written : Outcome → Option SleepData
written running = none
written exit_failure = none
written (exit_success d) = some d

-- `total_elapsed >= TEST_DURATION`, in whole nanoseconds: a double tells five seconds from one
-- nanosecond less.
unfoldable pub is_over : Timespec → Timespec → Bool
is_over now test_start =
    let total_elapsed =
      (pos now.tv_sec -ℤ pos test_start.tv_sec) *ℤ pos nsec_per_sec
      +ℤ (pos now.tv_nsec -ℤ pos test_start.tv_nsec) in
    if ltb_ℤ total_elapsed (pos (test_duration * nsec_per_sec)) then false else true

-- The loop from round `k` on. A sleep that is interrupted is a sleep like any other.
unfoldable pub rounds : Clock → Timespec → ℕ → ℕ → SleepData → Outcome
unfolding record_sleep is_over
rounds clock test_start zero k sofar = running
rounds clock test_start (suc fuel) k sofar = elim (clock.before k) [
  | none ↦ exit_failure
  | some before ↦ elim (clock.after k) [
    | none ↦ exit_failure
    | some after ↦ elim (clock.now k) [
      | none ↦ exit_failure
      | some now ↦ elim (is_over now test_start) [
        | true ↦ exit_success (record_sleep sofar (record { before = before; after = after }))
        | false ↦
            rounds clock test_start fuel (k + 1)
              (record_sleep sofar (record { before = before; after = after }))
      ]
    ]
  ]
]

unfoldable pub sleep_proc_function : Clock → ℕ → ℕ → Outcome
unfolding rounds
sleep_proc_function clock fuel proc_id = elim clock.test_start [
  | none ↦ exit_failure
  | some test_start ↦ rounds clock test_start fuel 0 (fresh proc_id)
]
