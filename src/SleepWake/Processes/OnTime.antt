-- ===== src/SleepWake/Processes/OnTime.antt =====
-- sleep_wake_process.c from the clocks of the sleeping processes to the report.
use microkernel_benchmark.Prelude.{ℕ, suc, ◌^◌, ◌≤◌, ◌<◌, ◌≡◌, arith, ◌∙◌, ap, List}
use microkernel_benchmark.Prelude.Int.{pos_part}
use microkernel_benchmark.Prelude.Program.{pure}
use microkernel_benchmark.CString.{Bytes}
use microkernel_benchmark.Timespec.{nanos}
use microkernel_benchmark.SleepWake.{num_sleepers}
use microkernel_benchmark.SleepWake.Lateness.{total_lateness}
use microkernel_benchmark.SleepWake.Processes.{Grants, main}
use microkernel_benchmark.SleepWake.Processes.Results.{
  AllGranted, Fits, lines, summary, report-lines, main_granted,
}
use microkernel_benchmark.SleepWake.Processes.Child.{Clock, written, sleep_proc_function}
use microkernel_benchmark.SleepWake.Processes.Child.Account.{
  Readings, sleep_of, IsSteady, Accounts, sleep_proc_function-Accounts,
}

abbrev pub jitter_until : Readings → ℕ → ℕ
jitter_until r last = total_lateness (sleep_of r) (suc last) 0

summary-Fits :
    (r : Readings) (i last : ℕ)
    → i < 2 ^ 31
    → nanos (r.now last) < 2 ^ 63
    → Accounts r (jitter_until r last) last
    → Fits (summary (sleep_of r) last i)
summary-Fits r i last small below a = record {
  id = omega arith;
  total = omega (arith, a.fits);
  iterations = omega (arith, a.few);
}

-- If the kernel grants what the program asks for, fewer than 2^31 processes sleep, and for each of them
-- no reading of the clock fails, the clock does not go back, no sleep is shorter than 10 ms, and the
-- looks at the clock in the first 500 rounds are below 2^63 nanoseconds, then with fuel for 500 rounds every process ends, and the report has a
-- line for each in order: its number, its jitter, which is the sum of the time that each sleep took
-- beyond 10 ms, and the number of its sleeps, which are those up to the first look that finds five
-- seconds past. They are 500 at most, and the jitter makes with 10 ms for each no more than the time
-- between the start of the process and that look.
pub main_on_time :
    (g : Grants) (args : List Bytes) (fuel : ℕ) (clock : ℕ → Clock) (r : ℕ → Readings)
    → AllGranted g
    → pos_part (num_sleepers args) < 2 ^ 31
    → ((i : ℕ) → IsSteady (clock i) (r i))
    → ((i k : ℕ) → k < 500 → nanos ((r i).now k) < 2 ^ 63)
    → 500 ≤ fuel
    → (last : ℕ → ℕ) × (main g (λ i. written (sleep_proc_function (clock i) fuel i)) args
        ≡ pure (lines (λ i. summary (sleep_of (r i)) (last i) i) (pos_part (num_sleepers args)) 0))
      × ((i : ℕ) → Accounts (r i) (jitter_until (r i) (last i)) (last i))
main_on_time g args fuel clock r granted few steady below enough =
    let ends = λ (i : ℕ). sleep_proc_function-Accounts (clock i) (r i) fuel i (steady i) enough in
    (
      λ i. (ends i).0,
      main_granted g _ args granted
          ∙ ap pure (
              report-lines _ (λ i. summary (sleep_of (r i)) ((ends i).0) i) _ 0
                (λ i lt. (
                  ap written (ends i).1,
                  summary-Fits (r i) i ((ends i).0) (omega arith)
                      (below i ((ends i).0) (ends i).2.few) (ends i).2,
                ))),
      λ i. (ends i).2,
    )
