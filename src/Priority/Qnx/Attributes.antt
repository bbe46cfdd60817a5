-- ===== src/Priority/Qnx/Attributes.antt =====
-- qnx_priority_inversion.c: what the default of the attributes makes of the priorities.
use microkernel_benchmark.Prelude.{◌+◌, ◌≤◌, ◌≡◌, none, ℕ}
use microkernel_benchmark.Policy.{Policy}
use microkernel_benchmark.Priority.{low_owns, med_ns}
use microkernel_benchmark.Priority.Dispatch.{low, med, high}
use microkernel_benchmark.Priority.Qnx
use microkernel_benchmark.Priority.Qnx.{State, High, Med, Low}

-- The medium thread has run through while the high one waits for the mutex that the low one has.
pub record IsInverted (s : State) : Type 0 where
  pub t0 : ℕ
  pub mutex : s.mutex ≡ low_owns
  pub waits : s.high ≡ High.locking t0
  pub through : s.med ≡ Med.finished
  pub late : t0 + med_ns ≤ s.clock

abbrev inverted : State
inverted = record {
  main = Qnx.waits_done;
  low = Low.spinning 0;
  high = High.locking 0;
  med = Med.finished;
  mutex = low_owns;
  low_locked = 0;
  high_ready = 0;
  high_done = 0;
  clock = med_ns;
  printed = none;
}
