-- ===== src/SleepWake/Loads.antt =====
-- How far the load processes and the load threads count.
use microkernel_benchmark.Prelude.{
  ℕ, zero, suc, ◌+◌, ◌*◌, ◌%◌, ◌^◌, ◌<◌, ◌≤◌, ◌≡◌, ap, ◌∙◌, arith, some, Bool, true, false,
}
use microkernel_benchmark.Fairness.{check_interval}
use microkernel_benchmark.Fairness.Counter.{count_up-first}
use microkernel_benchmark.SleepWake.Processes.{load_loop}
use microkernel_benchmark.SleepWake.Threads.{load_thread}

goes_on :
    (stop : ℕ → Bool) (fuel k counter : ℕ)
    → stop k ≡ false
    → load_thread stop (suc fuel) k counter ≡ load_thread stop fuel (k + 1) ((counter + 1) % 2 ^ 64)
unfolding load_thread
goes_on stop fuel k counter e = rw (load_thread, e)

ends :
    (stop : ℕ → Bool) (fuel k counter : ℕ)
    → stop k ≡ true
    → load_thread stop (suc fuel) k counter ≡ some counter
unfolding load_thread
ends stop fuel k counter e = rw (load_thread, e)

counts :
    (stop : ℕ → Bool) (n fuel k counter : ℕ)
    → counter < 2 ^ 64
    → ((i : ℕ) → i < k + n → stop i ≡ false)
    → stop (k + n) ≡ true
    → n < fuel
    → load_thread stop fuel k counter ≡ some ((counter + n) % 2 ^ 64)
counts stop n zero k counter fits before over enough = absurd (omega arith)
counts stop zero (suc fuel) k counter fits before over enough =
    ends stop fuel k counter (ap stop (omega arith) ∙ over) ∙ ap some (omega arith)
counts stop (suc n) (suc fuel) k counter fits before over enough =
    goes_on stop fuel k counter (before k (omega arith))
    ∙ counts stop n fuel (k + 1) ((counter + 1) % 2 ^ 64) (omega arith)
        (λ i lt. before i (omega arith)) (ap stop (omega arith) ∙ over) (omega arith)
    ∙ ap some (omega arith)

-- A load thread ends at its first look, number `n`, that finds the flag set, with `n` modulo 2^64.
pub load_thread-counts :
    (stop : ℕ → Bool) (n fuel : ℕ)
    → ((i : ℕ) → i < n → stop i ≡ false)
    → stop n ≡ true
    → n < fuel
    → load_thread stop fuel 0 0 ≡ some (n % 2 ^ 64)
load_thread-counts stop n fuel before over enough =
    counts stop n fuel 0 0 (omega arith) (λ i lt. before i (omega arith))
      (ap stop (omega arith) ∙ over) enough
    ∙ ap some (omega arith)

-- A load process ends with a counter of `k + 1` million, if its k-th look at the clock (from 0) is
-- the first to find the time over, and the counter does not wrap around before.
pub load_loop-first :
    (expired : ℕ → Bool) (k fuel : ℕ)
    → ((i : ℕ) → i < k → expired i ≡ false)
    → expired k ≡ true
    → (k + 1) * check_interval < 2 ^ 64
    → (k + 1) * check_interval ≤ fuel
    → load_loop expired fuel 0 0 ≡ some ((k + 1) * check_interval)
unfolding load_loop
load_loop-first = count_up-first
