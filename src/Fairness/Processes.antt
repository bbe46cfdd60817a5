-- ===== src/Fairness/Processes.antt =====
-- scheduling/process/process_fairness.c
use microkernel_benchmark.Prelude.{ℕ, Option, Bool}
use microkernel_benchmark.Prelude.Program.{Program, pure, ◌>>◌}
use microkernel_benchmark.Fairness.{num_procs, Report, spawn, summary}

-- `counters i` is what child `i` writes, or `none` if it ends without writing.
unfoldable pub main : (ℕ → Bool) → (ℕ → Bool) → (ℕ → Option ℕ) → Program Report
unfolding spawn summary
main piped forked counters = do spawn piped forked num_procs 0; pure (summary counters)
