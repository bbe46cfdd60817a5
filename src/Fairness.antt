-- ===== src/Fairness.antt =====
-- scheduling/process/process_fairness.c and ipc/ipc_pipe_latency.c: ten processes count for five
-- seconds, write their counters into pipes as text, and the parent reads and summarises them. The
-- counters are unsigned long long.
pub mod Counter
pub mod Extremes
pub mod Processes
pub mod Pipes
pub mod Reports
pub mod Runs
mod Tests
use microkernel_benchmark.Prelude.{
  ℕ, zero, suc, ◌+◌, ◌-◌, ◌*◌, ◌%◌, ◌^◌, Option, none, some, List, [], ◌∷◌, Bool, true, false, ltb,
  leb, ◌==◌, if◌then◌else◌,
}
use microkernel_benchmark.Prelude.Program.{Program, pure, require, ◌>>=◌, ◌>>◌}
use microkernel_benchmark.CString.{Bytes, decimal, strtoull}

abbrev pub num_procs : ℕ
num_procs = 10

abbrev pub check_interval : ℕ
check_interval = 1_000_000

-- The loop of a child with `counter` increments behind it and `k` looks at the clock; `expired k`
-- says whether the k-th look finds RUN_TIME over. `none` is a loop that is still running. A
-- look that fails ends the child without a message: that stands in Runs.
unfoldable pub count_up : (ℕ → Bool) → ℕ → ℕ → ℕ → Option ℕ
count_up expired zero k counter = none
count_up expired (suc fuel) k counter =
    let counter' = (counter + 1) % 2 ^ 64 in
    elim (counter' % check_interval == 0) [
      | false ↦ count_up expired fuel k counter'
      | true ↦ elim (expired k) [
        | true ↦ some counter'
        | false ↦ count_up expired fuel (k + 1) counter'
      ]
    ]

-- What a child writes, if it comes to write: `sprintf` of its counter.
unfoldable pub message : Option ℕ → Bytes
unfolding decimal
message none = []
message (some counter) = decimal counter

-- What the parent makes of what it reads; a read that fails or finds the end gives no bytes.
unfoldable pub read_count : Bytes → ℕ
unfolding strtoull
read_count [] = 0
read_count (c ∷ cs) = strtoull (c ∷ cs)

-- Ten pipes and ten forks, of which `n` are to go from `i` on.
unfoldable pub spawn : (ℕ → Bool) → (ℕ → Bool) → ℕ → ℕ → Program (Unit {0})
spawn piped forked zero i = pure tt
spawn piped forked (suc n) i = do
  require (piped i) "pipe"
  require (forked i) "fork"
  spawn piped forked n (i + 1)

-- `counts`, for `n` children from `i` on.
unfoldable pub collect : (ℕ → Option ℕ) → ℕ → ℕ → List ℕ
unfolding message read_count
collect counters zero i = []
collect counters (suc n) i = read_count (message (counters i)) ∷ collect counters n (i + 1)

pub record Statistics : Type 0 where
  pub min : ℕ
  pub max : ℕ
  pub sum : ℕ

unfoldable pub observe : Statistics → ℕ → Statistics
observe s c = record {
  min = if ltb c s.min then c else s.min;
  max = if ltb s.max c then c else s.max;
  sum = (s.sum + c) % 2 ^ 64;
}

unfoldable pub accumulate : List ℕ → Statistics → Statistics
unfolding observe
accumulate [] s = s
accumulate (c ∷ cs) s = accumulate cs (observe s c)

-- min and max start from `counts[0]`, which is `c`, and the loop begins with it.
unfoldable pub statistics : ℕ → List ℕ → Statistics
unfolding accumulate
statistics c cs = accumulate (c ∷ cs) (record { min = c; max = c; sum = 0 })

pub record Report : Type 0 where
  pub counts : List ℕ
  pub figures : Statistics

-- What the parent does with the pipes once all children have ended.
unfoldable pub summary : (ℕ → Option ℕ) → Report
unfolding collect statistics
summary counters =
    let c = read_count (message (counters 0)) in
    let cs = collect counters (num_procs - 1) 1 in
    record { counts = c ∷ cs; figures = statistics c cs }
