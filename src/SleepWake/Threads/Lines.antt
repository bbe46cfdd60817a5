-- ===== src/SleepWake/Threads/Lines.antt =====
-- The report of sleep_wake_thread.c.
use microkernel_benchmark.Prelude.{
  ℕ, zero, suc, ◌+◌, ◌*◌, ◌≡◌, refl, ap, arith, List, [], ◌∷◌, length, Bool, true, ◌||◌, ltb,
  String, if◌then◌else◌,
}
use microkernel_benchmark.Prelude.Int.{pos, pos_part}
use microkernel_benchmark.Prelude.Program.{pure}
use microkernel_benchmark.CString.{Bytes}
use microkernel_benchmark.Policy.{on_qnx}
use microkernel_benchmark.SleepWake.{
  Sleep, SleepData, fresh, thread_loop, num_sleepers, num_loaders,
}
use microkernel_benchmark.SleepWake.Lateness.{list_lateness, thread_loop-total}
use microkernel_benchmark.SleepWake.Threads.{create_threads, report, Grants, main}

-- A thread with its lateness and its sleeps.
abbrev pub summed_up : ℕ → List Sleep → SleepData
summed_up i sleeps = record {
  id = i;
  total_jitter_ns = pos (list_lateness sleeps);
  iterations = length sleeps;
}

-- A thread that did not sleep is left out.
abbrev pub if_slept : ℕ → List Sleep → List SleepData → List SleepData
if_slept i [] rest = rest
if_slept i (s ∷ sleeps) rest = summed_up i (s ∷ sleeps) ∷ rest

-- The lines for `n` threads from number `i` on.
abbrev pub sleepers : (ℕ → List Sleep) → ℕ → ℕ → List SleepData
sleepers sleeps zero i = []
sleepers sleeps (suc n) i = if_slept i (sleeps i) (sleepers sleeps n (i + 1))

-- The kernel grants what the program asks for.
pub record AllGranted (g : Grants) : Type 0 where
  pub affinity : (on_qnx g.host.platform || g.host.set_affinity 0) ≡ true
  pub memory : (on_qnx g.host.platform || g.host.set_rlimit_as (512 * 1024 * 1024)) ≡ true
  pub allocated : g.allocated ≡ true
  pub created : (i : ℕ) → g.created i ≡ true
  pub load_created : (i : ℕ) → g.load_created i ≡ true

created_all :
    (message : String) (created : ℕ → Bool) (n i : ℕ)
    → ((j : ℕ) → created j ≡ true)
    → create_threads message created n i ≡ pure tt
unfolding create_threads
created_all message created zero i f = refl
created_all message created (suc n) i f = rw (f i) (created_all message created n (i + 1) f)

if_slept_lem :
    (i : ℕ) (sleeps : List Sleep) (rest : List SleepData)
    → (if ltb 0 (length sleeps) then summed_up i sleeps ∷ rest else rest) ≡ if_slept i sleeps rest
if_slept_lem i [] rest = refl
if_slept_lem i (s ∷ sleeps) rest =
    let some_sleep : ltb 0 (suc (length sleeps)) ≡ true = ground arith in rw some_sleep refl

report-sleepers :
    (sleeps : ℕ → List Sleep) (n i : ℕ)
    → report (λ j. thread_loop (sleeps j) (fresh j)) n i ≡ sleepers sleeps n i
unfolding report
report-sleepers sleeps zero i = refl
report-sleepers sleeps (suc n) i =
    rw (thread_loop-total (sleeps i) i, report-sleepers sleeps n (i + 1))
      (if_slept_lem i (sleeps i) (sleepers sleeps n (i + 1)))

-- If the kernel grants what the program asks for, the report has a line for each sleeping thread,
-- in order, that made a sleep before it saw the stop flag: its number, the number of its sleeps,
-- and the sum of the time that each took beyond 10 ms, where an early sleep counts as 0.
pub main-sleepers :
    (g : Grants) (sleeps : ℕ → List Sleep) (args : List Bytes)
    → AllGranted g
    → main g sleeps args ≡ pure (sleepers sleeps (pos_part (num_sleepers args)) 0)
unfolding main
main-sleepers g sleeps args a =
    rw
      (
        a.affinity,
        a.memory,
        a.allocated,
        created_all "pthread_create (sleep thread)" g.created (pos_part (num_sleepers args)) 0
            a.created,
        created_all "pthread_create (load thread)" g.load_created (pos_part (num_loaders args)) 0
            a.load_created,
      )
      (ap pure (report-sleepers sleeps (pos_part (num_sleepers args)) 0))
