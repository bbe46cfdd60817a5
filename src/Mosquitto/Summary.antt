-- ===== src/Mosquitto/Summary.antt =====
-- The loop at the end of each run: the sum, the least and the greatest of the latencies, where the
-- `i`-th message to come back is set against the `i`-th that was sent.
pub mod Facts
use microkernel_benchmark.Prelude.{ℕ, ◌-◌, ◌^◌, List, [], ◌∷◌, if◌then◌else◌}
use microkernel_benchmark.Prelude.Int.{ℤ, pos, ◌+ℤ◌, ◌-ℤ◌, ltb_ℤ}

pub record Summary : Type 0 where
  pub total : ℤ
  pub min : ℤ
  pub max : ℤ

abbrev pub llong_max : ℤ
llong_max = pos (2 ^ 63 - 1)

abbrev pub start : Summary
start = record { total = pos 0; min = llong_max; max = pos 0 }

unfoldable pub observe : Summary → ℤ → Summary
observe s d = record {
  total = s.total +ℤ d;
  min = if ltb_ℤ d s.min then d else s.min;
  max = if ltb_ℤ s.max d then d else s.max;
}

-- Both arrays have COUNT entries; the loop runs over them in step.
unfoldable pub summarise : List ℕ → List ℕ → Summary → Summary
unfolding observe
summarise [] sends s = s
summarise (r ∷ recvs) [] s = s
summarise (r ∷ recvs) (t ∷ sends) s = summarise recvs sends (observe s (pos r -ℤ pos t))
