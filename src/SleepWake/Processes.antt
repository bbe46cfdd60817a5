-- ===== src/SleepWake/Processes.antt =====
-- sleep_wake_process.c: the sleeping processes send their results to the parent as text, one pipe
-- for each.
pub mod Child
pub mod OnTime
pub mod Results
use microkernel_benchmark.Prelude.{
  ℕ, zero, suc, ◌+◌, ◌*◌, ◌%◌, ◌^◌, Option, none, some, List, [], ◌∷◌, ◌++◌, Bool, true, false,
  ◌||◌, ◌==◌,
}
use microkernel_benchmark.Prelude.Int.{ℤ, pos, pos_part}
use microkernel_benchmark.Prelude.Program.{Program, pure, require, ◌>>=◌, ◌>>◌}
use microkernel_benchmark.CString.{Bytes}
use microkernel_benchmark.CString.Scan.{signed_decimal, scan_int}
use microkernel_benchmark.Fairness.{count_up}
use microkernel_benchmark.Policy.{Host, on_qnx}
use microkernel_benchmark.SleepWake.{SleepData, num_sleepers, num_loaders}

-- What a sleeping process writes, "%d %ld %ld"; one that has ended before, at a failure, writes
-- nothing.
unfoldable pub message : Option SleepData → Bytes
unfolding signed_decimal
message none = []
message (some d) =
    signed_decimal (pos d.id)
    ++ (b' ' ∷ (signed_decimal d.total_jitter_ns ++ (b' ' ∷ signed_decimal (pos d.iterations))))

-- The loop of `load_proc_function` is that of a counting child of process_fairness.c: after every
-- million increments, `expired k` says whether look number `k` at the clock finds the test over. `none`
-- is a loop that is still running.
unfoldable pub load_loop : (ℕ → Bool) → ℕ → ℕ → ℕ → Option ℕ
unfolding count_up
load_loop = count_up

-- A line of the report. The average of a measured process is the quotient of the last two numbers,
-- and 0 where there was no iteration.
pub data Line : Type 0 where
  measured : (proc_id total_jitter_ns iterations : ℤ) → Line
  unparsable : (i : ℕ) (text : Bytes) → Line
  no_data : (i : ℕ) → Line

-- `sscanf(buf, "%d %ld %ld", ...) == 3`
unfoldable pub scan_result : Bytes → Option Line
unfolding scan_int
scan_result text = elim (scan_int text) [
  | none ↦ none
  | some (proc_id, rest) ↦ elim (scan_int rest) [
    | none ↦ none
    | some (total, rest') ↦ elim (scan_int rest') [
      | none ↦ none
      | some (iterations, _) ↦ some (measured proc_id total iterations)
    ]
  ]
]

-- The line for process `i`, of what was read; a read that fails or finds the end gives no bytes.
unfoldable pub line_of : ℕ → Bytes → Line
unfolding scan_result
line_of i [] = no_data i
line_of i (c ∷ cs) = elim (scan_result (c ∷ cs)) [ none ↦ unparsable i (c ∷ cs) | some line ↦ line ]

-- The report on `n` processes from `i` on. All have ended, so a read finds all that was written.
unfoldable pub report : (ℕ → Option SleepData) → ℕ → ℕ → List Line
unfolding message line_of
report results zero i = []
report results (suc n) i = line_of i (message (results i)) ∷ report results n (i + 1)

-- `n` pipes and forks from number `i` on, and `n` forks.
unfoldable pub fork_sleepers : (ℕ → Bool) → (ℕ → Bool) → ℕ → ℕ → Program (Unit {0})
fork_sleepers piped forked zero i = pure tt
fork_sleepers piped forked (suc n) i = do
  require (piped i) "pipe"
  require (forked i) "fork"
  fork_sleepers piped forked n (i + 1)

unfoldable pub fork_loaders : (ℕ → Bool) → ℕ → ℕ → Program (Unit {0})
fork_loaders forked zero i = pure tt
fork_loaders forked (suc n) i = do require (forked i) "fork"; fork_loaders forked n (i + 1)

-- The answers of the kernel to the requests of `main`.
pub record Grants : Type 0 where
  pub host : Host
  pub allocated : Bool
  pub piped : ℕ → Bool
  pub forked : ℕ → Bool
  pub load_forked : ℕ → Bool

-- `main`, given what the sleeping processes end with.
unfoldable pub main : Grants → (ℕ → Option SleepData) → List Bytes → Program (List Line)
unfolding num_sleepers num_loaders fork_sleepers fork_loaders report
main g results args = do
  require (on_qnx g.host.platform || g.host.set_affinity 0) "sched_setaffinity"
  require (on_qnx g.host.platform || g.host.set_rlimit_as (512 * 1024 * 1024)) "setrlimit"
  require g.allocated "malloc"
  fork_sleepers g.piped g.forked (pos_part (num_sleepers args)) 0
  fork_loaders g.load_forked (pos_part (num_loaders args)) 0
  pure (report results (pos_part (num_sleepers args)) 0)
