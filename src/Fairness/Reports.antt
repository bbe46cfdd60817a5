-- ===== src/Fairness/Reports.antt =====
-- What the two fairness programs report.
use microkernel_benchmark.Prelude.{
  ℕ, zero, suc, ◌+◌, ◌^◌, ◌<◌, ◌≡◌, refl, ◌∙◌, arith, Option, none, some, List, [], ◌∷◌, String,
  Bool, true, ◌&&◌, if◌then◌else◌,
}
use microkernel_benchmark.Prelude.Program.{finished, failed, pure, ◌>>◌, bind_finished}
use microkernel_benchmark.CString.{Bytes, decimal, strtoull}
use microkernel_benchmark.CString.Decimal.{strtoull-decimal}
use microkernel_benchmark.Policy.{Platform, Policy, fifo, Host}
use microkernel_benchmark.Policy.Agreement.{IsNamed, parse_policy-IsNamed}
use microkernel_benchmark.Fairness.{
  num_procs, message, read_count, spawn, collect, Statistics, statistics, Report, summary,
}
use microkernel_benchmark.Fairness.Extremes.{IsStatistics, statistics-IsStatistics}
use microkernel_benchmark.Fairness.Processes
use microkernel_benchmark.Fairness.Pipes

-- The count of a child: 0 if it has written nothing.
abbrev pub value : Option ℕ → ℕ
value none = 0
value (some counter) = counter

abbrev pub values : (ℕ → Option ℕ) → ℕ → ℕ → List ℕ
values counters zero i = []
values counters (suc n) i = value (counters i) ∷ values counters n (i + 1)

-- The pipes and the forks of `n` children from `i` on.
abbrev pub granted : (ℕ → Bool) → (ℕ → Bool) → ℕ → ℕ → Bool
granted piped forked zero i = true
granted piped forked (suc n) i = piped i && forked i && granted piped forked n (i + 1)

abbrev pub Counts : (ℕ → Option ℕ) → Type 0
Counts counters = (i : ℕ) → value (counters i) < 2 ^ 64

read_count-strtoull : (b : Bytes) → read_count b ≡ strtoull b
unfolding read_count strtoull
read_count-strtoull [] = refl
read_count-strtoull (c ∷ cs) = refl

pub read_count-message : (o : Option ℕ) → value o < 2 ^ 64 → read_count (message o) ≡ value o
unfolding message read_count
read_count-message none fits = refl
read_count-message (some n) fits = read_count-strtoull (decimal n) ∙ strtoull-decimal n fits

collect-values :
    (counters : ℕ → Option ℕ) (n i : ℕ)
    → Counts counters
    → collect counters n i ≡ values counters n i
unfolding collect
collect-values counters zero i fits = refl
collect-values counters (suc n) i fits =
    rw (read_count-message (counters i) (fits i), collect-values counters n (i + 1) fits)

abbrev pub reported : (ℕ → Option ℕ) → Statistics → Report
reported counters s = record { counts = values counters num_procs 0; figures = s }

figures : (ℕ → Option ℕ) → Statistics
figures counters = statistics (value (counters 0)) (values counters 9 1)

summary-reported :
    (counters : ℕ → Option ℕ)
    → Counts counters
    → summary counters ≡ reported counters (figures counters)
unfolding summary figures
summary-reported counters fits i =
    let first : read_count (message (counters 0)) ≡ value (counters 0) =
      read_count-message (counters 0) (fits 0) in
    let others : collect counters 9 1 ≡ values counters 9 1 = collect-values counters 9 1 fits in
    record { counts = first i ∷ others i; figures = statistics (first i) (others i) }

figures-IsStatistics :
    (counters : ℕ → Option ℕ) → IsStatistics (values counters num_procs 0) (figures counters)
unfolding figures
figures-IsStatistics counters = statistics-IsStatistics _ _

spawn-granted :
    (piped forked : ℕ → Bool) (n i : ℕ)
    → (spawn piped forked n i).result ≡ (if granted piped forked n i then finished tt else failed)
unfolding spawn
spawn-granted piped forked zero i = refl
spawn-granted piped forked (suc n) i = ground (arith, spawn-granted piped forked n (i + 1))

spawned :
    {A : Type 0} (piped forked : ℕ → Bool) (a : A)
    → (spawn piped forked num_procs 0 >> pure a).result
      ≡ (if granted piped forked num_procs 0 then finished a else failed)
spawned piped forked a = ground (arith, spawn-granted piped forked num_procs 0)

-- process_fairness.c, for counters below 2^64: if all pipes and forks are granted, the program
-- reports for each child the counter that it wrote, or 0 if it wrote none, with their least, their
-- greatest and their sum modulo 2^64; otherwise it fails.
pub processes-report :
    (piped forked : ℕ → Bool) (counters : ℕ → Option ℕ)
    → Counts counters
    → (s : Statistics) × IsStatistics (values counters num_procs 0) s
      × ((Processes.main piped forked counters).result
          ≡ (if granted piped forked num_procs 0 then finished (reported counters s) else failed))
unfolding Processes.main
processes-report piped forked counters fits = (
  figures counters,
  figures-IsStatistics counters,
  rw (summary-reported counters fits) (spawned piped forked _),
)

-- SCHED_FIFO without an argument, otherwise the policy that the first one names.
abbrev pub Chosen : Platform → List String → Policy → Type 0
Chosen platform [] policy = policy ≡ fifo
Chosen platform (arg ∷ _) policy = IsNamed platform arg policy

-- ipc_pipe_latency.c reports the same under the policy that its arguments choose.
pub pipes-report :
    (host : Host) (piped forked : ℕ → Bool) (counters : ℕ → Option ℕ) (args : List String)
    (policy : Policy)
    → Counts counters
    → Chosen host.platform args policy
    → (s : Statistics) × IsStatistics (values counters num_procs 0) s
      × ((Pipes.main host piped forked counters args).result ≡ (
          if granted piped forked num_procs 0
          then finished (policy, reported counters s)
          else failed))
unfolding Pipes.main Pipes.parse_sched_policy
pipes-report host piped forked counters [] policy fits chosen = (
  figures counters,
  figures-IsStatistics counters,
  rw (chosen, summary-reported counters fits) (spawned piped forked _),
)
pipes-report host piped forked counters (arg ∷ rest) policy fits chosen = (
  figures counters,
  figures-IsStatistics counters,
  bind_finished (Pipes.parse_sched_policy host.platform arg) _ policy
        ((parse_policy-IsNamed host.platform _ _ arg policy).1 chosen)
      ∙ rw (summary-reported counters fits) (spawned piped forked _),
)
