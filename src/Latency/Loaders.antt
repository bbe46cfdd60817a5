-- ===== src/Latency/Loaders.antt =====
-- The load threads of deterministic_latency.c, which `main` joins behind the measuring thread.
use microkernel_benchmark.Prelude.{
  ℕ, zero, suc, ◌+◌, ◌<◌, ◌≡◌, ap, ◌∙◌, arith, some, Bool, true, false,
}
use microkernel_benchmark.Latency.Deterministic.{load_thread}

goes_on :
    (running : ℕ → Bool) (fuel k : ℕ)
    → running k ≡ true
    → load_thread running (suc fuel) k ≡ load_thread running fuel (k + 1)
unfolding load_thread
goes_on running fuel k e = rw (load_thread, e)

ends :
    (running : ℕ → Bool) (fuel k : ℕ)
    → running k ≡ false
    → load_thread running (suc fuel) k ≡ some k
unfolding load_thread
ends running fuel k e = rw (load_thread, e)

passes :
    (running : ℕ → Bool) (n fuel k : ℕ)
    → ((i : ℕ) → i < k + n → running i ≡ true)
    → running (k + n) ≡ false
    → n < fuel
    → load_thread running fuel k ≡ some (k + n)
passes running n zero k before over enough = absurd (omega arith)
passes running zero (suc fuel) k before over enough =
    ends running fuel k (ap running (omega arith) ∙ over) ∙ ap some (omega arith)
passes running (suc n) (suc fuel) k before over enough =
    goes_on running fuel k (before k (omega arith))
    ∙ passes running n fuel (k + 1) (λ i lt. before i (omega arith))
        (ap running (omega arith) ∙ over) (omega arith)
    ∙ ap some (omega arith)

-- A load thread ends at its first look, number `n`, that finds the flag cleared, after `n` passes.
pub load_thread-first :
    (running : ℕ → Bool) (n fuel : ℕ)
    → ((i : ℕ) → i < n → running i ≡ true)
    → running n ≡ false
    → n < fuel
    → load_thread running fuel 0 ≡ some n
load_thread-first running n fuel before over enough =
    passes running n fuel 0 (λ i lt. before i (omega arith)) (ap running (omega arith) ∙ over)
      enough
    ∙ ap some (omega arith)
