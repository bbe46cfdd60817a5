-- ===== src/SleepWake/Threads.antt =====
-- `main` of sleep_wake_thread.c, with its load threads; the sleeping threads are `thread_loop`.
pub mod Lines
use microkernel_benchmark.Prelude.{
  ℕ, zero, suc, ◌+◌, ◌*◌, ◌%◌, ◌^◌, Option, none, some, List, [], ◌∷◌, Bool, true, false, ◌||◌, ltb,
  String, if◌then◌else◌,
}
use microkernel_benchmark.Prelude.Int.{pos_part}
use microkernel_benchmark.Prelude.Program.{Program, pure, require, ◌>>◌}
use microkernel_benchmark.CString.{Bytes}
use microkernel_benchmark.Policy.{Host, on_qnx}
use microkernel_benchmark.SleepWake.{
  Sleep, SleepData, fresh, thread_loop, num_sleepers, num_loaders,
}

-- `load_thread_function`; `stop k` is what the k-th look at the flag finds. `none` is a loop that
-- is still running.
unfoldable pub load_thread : (ℕ → Bool) → ℕ → ℕ → ℕ → Option ℕ
load_thread stop zero k counter = none
load_thread stop (suc fuel) k counter = elim (stop k) [
  | true ↦ some counter
  | false ↦ load_thread stop fuel (k + 1) ((counter + 1) % 2 ^ 64)
]

-- `n` threads from number `i` on.
unfoldable pub create_threads : String → (ℕ → Bool) → ℕ → ℕ → Program (Unit {0})
create_threads message created zero i = pure tt
create_threads message created (suc n) i = do
  require (created i) message
  create_threads message created n (i + 1)

-- The threads that have a line in the report, of `n` from number `i` on: a thread without an
-- iteration has none. The average of a line is the quotient of its jitter by its iterations.
unfoldable pub report : (ℕ → SleepData) → ℕ → ℕ → List SleepData
report data_of zero i = []
report data_of (suc n) i =
    let rest = report data_of n (i + 1) in
    if ltb 0 (data_of i).iterations then data_of i ∷ rest else rest

-- The answers of the kernel to the requests of `main`.
pub record Grants : Type 0 where
  pub host : Host
  pub allocated : Bool
  pub created : ℕ → Bool
  pub load_created : ℕ → Bool

-- `main`; thread `i` makes the sleeps `sleeps i` before it sees the flag.
unfoldable pub main : Grants → (ℕ → List Sleep) → List Bytes → Program (List SleepData)
unfolding num_sleepers num_loaders create_threads report thread_loop
main g sleeps args = do
  require (on_qnx g.host.platform || g.host.set_affinity 0) "sched_setaffinity"
  require (on_qnx g.host.platform || g.host.set_rlimit_as (512 * 1024 * 1024)) "setrlimit"
  require g.allocated "malloc"
  create_threads "pthread_create (sleep thread)" g.created (pos_part (num_sleepers args)) 0
  create_threads "pthread_create (load thread)" g.load_created (pos_part (num_loaders args)) 0
  pure (report (λ i. thread_loop (sleeps i) (fresh i)) (pos_part (num_sleepers args)) 0)
