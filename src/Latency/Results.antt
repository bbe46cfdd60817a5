-- ===== src/Latency/Results.antt =====
-- What the measuring loops of scheduling/latency compute.
use microkernel_benchmark.Prelude.{
  ℕ, zero, suc, ◌+◌, ◌*◌, ◌^◌, ◌<◌, ◌≡◌, refl, inl, inr, arith, if◌then◌else◌, Bool-cases, ◌∙◌, ap,
}
use microkernel_benchmark.Prelude.Int.{pos, sub_ℕ, ltb_ℤ, ◌-ℤ◌, abs}
use microkernel_benchmark.Prelude.Program.{finished, result-warn_unless}
use microkernel_benchmark.Timespec.{Timespec, nanos, timespec_add}
use microkernel_benchmark.Timespec.Laws.{nanos-timespec_add, timespec_diff_ns-nanos, difference}
use microkernel_benchmark.Policy.{linux, qnx}
use microkernel_benchmark.Latency.{Wake, period_ns}
use microkernel_benchmark.Latency.MaxLatency
use microkernel_benchmark.Latency.Jitter
use microkernel_benchmark.Latency.Deterministic
use microkernel_benchmark.Latency.Worst.{deviation, abs_diff, higher, worst, run_length}

magnitude :
    (a b : ℕ)
    → (if ltb_ℤ (sub_ℕ a b) (pos 0) then pos 0 -ℤ sub_ℕ a b else sub_ℕ a b) ≡ pos (abs_diff a b)
unfolding ◌-ℤ◌
magnitude a b = ground arith

higher_pos : (m d : ℕ) → (if ltb_ℤ (pos m) (pos d) then pos d else pos m) ≡ pos (higher m d)
higher_pos m d = ground arith

observe-higher :
    (now next : Timespec) (m : ℕ)
    → MaxLatency.observe now next (pos m) ≡ pos (higher m (abs_diff (nanos now) (nanos next)))
unfolding MaxLatency.observe
observe-higher now next m =
    rw (timespec_diff_ns-nanos now next, magnitude (nanos now) (nanos next)) (higher_pos m _)

det_observe-higher :
    (now next : Timespec) (m : ℕ)
    → Deterministic.observe now next (pos m) ≡ pos (higher m (abs_diff (nanos now) (nanos next)))
unfolding Deterministic.observe abs
det_observe-higher now next m =
    rw (difference now next, magnitude (nanos now) (nanos next)) (higher_pos m _)

jitter_observe-higher :
    (now next : Timespec) (m : ℕ)
    → nanos now < 2 ^ 64
    → nanos next < 2 ^ 64
    → Jitter.observe now next m ≡ higher m (abs_diff (nanos now) (nanos next))
unfolding Jitter.observe
jitter_observe-higher now next m h k = ground arith

-- A deadline one period on, in each of the three spellings.
det_advance-nanos : (t : Timespec) → nanos (Deterministic.advance t) ≡ nanos t + period_ns
unfolding Deterministic.advance
det_advance-nanos t = ground arith

jitter_advance-nanos : (t : Timespec) → nanos (Jitter.advance t) ≡ nanos t + period_ns
unfolding Jitter.advance
jitter_advance-nanos t = ground arith

module _ (start : Timespec) (wakes : ℕ → Wake) where
  -- The loop of max_latency_scheduling.c: every round counts, and it never stops early.
  pub measure-worst :
      (n i m : ℕ) (next : Timespec)
      → nanos next ≡ nanos start + (i + 1) * period_ns
      → (MaxLatency.measure wakes n i next (pos m)).result
        ≡ finished (pos (worst (deviation start wakes) n i m))
  unfolding MaxLatency.measure worst
  measure-worst zero i m next e = refl
  measure-worst (suc n) i m next e =
      result-warn_unless (wakes i).slept "clock_nanosleep" _
      ∙ rw (observe-higher, e)
          (measure-worst n (i + 1) (higher m (deviation start wakes i))
            (timespec_add next period_ns) (omega (arith, nanos-timespec_add next period_ns)))

  pub det_rounds-worst :
      (n i m : ℕ) (next : Timespec)
      → nanos next ≡ nanos start + i * period_ns
      → (Deterministic.rounds linux wakes n i next (pos m)).result
        ≡ finished (pos (worst (deviation start wakes) n i m))
  unfolding Deterministic.rounds worst
  det_rounds-worst zero i m next e = refl
  det_rounds-worst (suc n) i m next e =
      ap (λ reading. (Deterministic.rounds linux wakes n (i + 1) next' reading).result)
        (det_observe-higher (wakes i).now next' m)
      ∙ rw later (det_rounds-worst n (i + 1) (higher m (deviation start wakes i)) next' later)
    where
      next' : Timespec
      next' = Deterministic.advance next

      later : nanos (Deterministic.advance next) ≡ nanos start + (i + 1) * period_ns
      later = omega (arith, det_advance-nanos next)

  pub det_rounds-worst_qnx :
      (n i m : ℕ) (next : Timespec)
      → nanos next ≡ nanos start + i * period_ns
      → (Deterministic.rounds qnx wakes n i next (pos m)).result
        ≡ finished (pos (worst (deviation start wakes) (run_length (λ k. (wakes k).slept) n i) i m))
  unfolding Deterministic.rounds worst run_length
  det_rounds-worst_qnx zero i m next e = refl
  det_rounds-worst_qnx (suc n) i m next e = elim (Bool-cases (wakes i).slept) [
    | inl good ↦
        rw (good, det_observe-higher, later)
          (det_rounds-worst_qnx n (i + 1) _ (Deterministic.advance next) later)
    | inr bad ↦ rw bad
  ]
    where
      later : nanos (Deterministic.advance next) ≡ nanos start + (i + 1) * period_ns
      later = omega (arith, det_advance-nanos next)

  -- uint64_t does not wrap as long as the clock and the deadlines stay below 2^64 ns.
  pub jitter_rounds-worst :
      (n i m : ℕ) (next : Timespec)
      → nanos next ≡ nanos start + i * period_ns
      → nanos start + (i + n) * period_ns < 2 ^ 64
      → ((k : ℕ) → nanos (wakes k).now < 2 ^ 64)
      → (Jitter.rounds wakes n i next m).result
        ≡ finished (worst (deviation start wakes) (run_length (λ k. (wakes k).slept) n i) i m)
  unfolding Jitter.rounds worst run_length
  jitter_rounds-worst zero i m next e fits clock = refl
  jitter_rounds-worst (suc n) i m next e fits clock = elim (Bool-cases (wakes i).slept) [
    | inl good ↦
        rw
          (
            good,
            jitter_observe-higher (wakes i).now (Jitter.advance next) m (clock i)
                (omega (arith, later)),
            later,
          )
          (jitter_rounds-worst n (i + 1) _ (Jitter.advance next) later (omega arith) clock)
    | inr bad ↦ rw bad
  ]
    where
      later : nanos (Jitter.advance next) ≡ nanos start + (i + 1) * period_ns
      later = omega (arith, jitter_advance-nanos next)
