-- ===== src/Fairness/Tests.antt =====
-- The fairness programs with small counters.
use mathlib.Core.WellFounded.{Acc}
use microkernel_benchmark.Prelude.{
  ℕ, zero, suc, ◌≡◌, refl, arith, Option, none, some, Bool, true, [], ◌∷◌, leb, All, length, ◌⊎◌,
  inr,
}
use microkernel_benchmark.Prelude.Int.{pos}
use microkernel_benchmark.Prelude.Program.{finished}
use microkernel_benchmark.CString.{codes, decimal, strtoull}
use microkernel_benchmark.CString.Decimal.{strtoull-decimal}
use microkernel_benchmark.Policy.{linux, rr, Host}
use microkernel_benchmark.Fairness.{Statistics, num_procs, count_up, read_count, statistics}
use microkernel_benchmark.Fairness.Counter.{count_up-first}
use microkernel_benchmark.Fairness.Extremes.{IsStatistics}
use microkernel_benchmark.Fairness.Reports.{
  Counts, values, reported, processes-report, pipes-report,
}
use microkernel_benchmark.Fairness.Processes
use microkernel_benchmark.Fairness.Runs
use microkernel_benchmark.Fairness.Runs.Agreement.{run-Reported}
use microkernel_benchmark.Fairness.Runs.Progress.{run_ends}
use microkernel_benchmark.Fairness.Pipes

printed : decimal 7340000 ≡ codes "7340000"
unfolding decimal
printed = refl

counter_comes_back : strtoull (decimal 7340000) ≡ 7340000
counter_comes_back = strtoull-decimal 7340000 (omega arith)

-- The third look finds the time over.
abbrev at_third : ℕ → Bool
at_third k = leb 2 k

count_up-first_example : count_up at_third 4000000 0 0 ≡ some 3000000
count_up-first_example =
    count_up-first at_third 2 4000000 (λ i lt. ground arith) refl (omega arith) (omega arith)

-- Child 0 ends without writing, the others count to some million.
abbrev counted : ℕ → Option ℕ
counted zero = none
counted (suc i) = some 5000000

counted-Counts : Counts counted
counted-Counts zero = omega arith
counted-Counts (suc i) = omega arith

abbrev yes_to_all : ℕ → Bool
yes_to_all i = true

processes-report_example :
    (s : Statistics) × IsStatistics (values counted num_procs 0) s
    × ((Processes.main yes_to_all yes_to_all counted).result ≡ finished (reported counted s))
processes-report_example = processes-report yes_to_all yes_to_all counted counted-Counts

abbrev granting : Host
granting = record {
  platform = linux;
  prio_max = λ policy. pos 99;
  set_scheduler = λ policy param. true;
  set_affinity = λ cpu. true;
  set_rlimit_as = λ bytes. true;
  create_thread = λ i. true;
}

pipes-report_example :
    (s : Statistics) × IsStatistics (values counted num_procs 0) s
    × ((Pipes.main granting yes_to_all yes_to_all counted ("rr" ∷ [])).result
        ≡ finished (rr, reported counted s))
pipes-report_example =
    pipes-report granting yes_to_all yes_to_all counted ("rr" ∷ []) rr counted-Counts refl

-- A run with one child, which counts to 7340000.
pipe_open : Runs.Reach 1 (record Runs.init { parent = Runs.forking 0 })
pipe_open = Runs.next Runs.here (Runs.pipe_made {i = 0} refl (omega arith))

abbrev alone : Runs.Child → Runs.Parent → ℕ → Runs.State
alone child parent closed = record {
  parent = parent;
  slots = record Runs.forked { child = child } ∷ [];
  closed = closed;
  printed = none;
}

waits_for_it : Runs.Reach 1 (alone Runs.counting (Runs.waiting 0) 1)
waits_for_it =
    let split_ : Runs.Reach 1 (alone Runs.counting (Runs.piping 1) 0) =
      Runs.next pipe_open (Runs.child_forked {i = 0} refl) in
    let all_made = Runs.next split_ (Runs.all_forked {i = 1} refl (omega arith)) in
    let closed = Runs.next all_made (Runs.end_closed {i = 0} refl (omega arith)) in
    Runs.next closed (Runs.all_closed {i = 1} refl (omega arith))

abbrev done : Runs.State
done = record {
  parent = Runs.returned;
  slots = record { child = Runs.reaped (some 7340000); content = []; count = some 7340000 } ∷ [];
  closed = 1;
  printed = some (record {
    counts = 7340000 ∷ [];
    figures = record { min = 7340000; max = 7340000; sum = 7340000 };
  });
}

done_reached : Runs.Reach 1 done
unfolding decimal read_count statistics
done_reached =
    let over = Runs.next waits_for_it (Runs.time_over 0 7340000 _ refl refl (omega arith)) in
    let sent = Runs.next over (Runs.counter_written 0 7340000 _ refl refl) in
    let gone = Runs.next sent (Runs.child_ends 0 _ (some 7340000) refl refl) in
    let known =
      Runs.next gone (Runs.child_waited {i = 0} 0 _ (some 7340000) refl (omega arith) refl refl) in
    let reads = Runs.next known (Runs.all_waited {i = 1} refl (omega arith)) in
    let counted_ = Runs.next reads (
      Runs.count_read {i = 0} _ refl (omega arith) refl
        (inr (omega arith, ((some 7340000, inr refl), tt)))) in
    Runs.next counted_ (Runs.report_printed {i = 1} 7340000 [] refl (omega arith) refl)

run-Reported_example :
    All Runs.IsReaped done.slots × (length done.slots ≡ 1) × Runs.Agreement.Reported 1 done
run-Reported_example = run-Reported 1 done_reached refl

run_ends_example :
    (Runs.Progress.Over done.parent ⊎ ((t : Runs.State) × Runs.Step 1 done t))
    × Acc (Runs.Progress.After 1) done
run_ends_example = run_ends 1 (omega arith) done_reached
