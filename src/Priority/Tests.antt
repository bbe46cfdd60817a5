-- ===== src/Priority/Tests.antt =====
-- Instances of the theorems on the two programs, and a run on Linux without the inversion.
use mathlib.Core.WellFounded.{Acc}
use microkernel_benchmark.Prelude.{
  ℕ, ◌-◌, ◌/◌, ◌+◌, ◌≤◌, ◌≡◌, ◌⊎◌, refl, arith, some, none, [], ◌∷◌, false,
}
use microkernel_benchmark.Prelude.Program.{finished}
use microkernel_benchmark.Prelude.Int.{pos, ◌-ℤ◌}
use microkernel_benchmark.Policy.{rr, fifo}
use microkernel_benchmark.Priority.{high_owns, low_owns, free, hold_ns, med_ns, waited_ms}
use microkernel_benchmark.Priority.Setup.{qnx_policy, qnx_threads, linux_threads}
use microkernel_benchmark.Priority.Qnx
use microkernel_benchmark.Priority.Linux
use microkernel_benchmark.Priority.Qnx.Order.{high_after_low}
use microkernel_benchmark.Priority.Qnx.Progress.{measures}
use microkernel_benchmark.Priority.Dispatch.{first}
use microkernel_benchmark.Priority.Linux.Inversion.{inversion}
use microkernel_benchmark.Priority.Qnx.Inheritance.{IsKeptOut, no_inversion}
use microkernel_benchmark.Priority.Linux.Wait.{Ended, waits_end}

chosen_policy : (qnx_policy ("rr" ∷ [])).result ≡ finished rr
unfolding qnx_policy
chosen_policy = refl

-- The low thread spins from time 5 on; the high one begins to wait at 10, and gets the mutex at the
-- end.
abbrev taken : Qnx.State
taken = record {
  main = Qnx.creates_med;
  low = Qnx.Low.finished 5;
  high = Qnx.measured 10 60_000_000;
  med = Qnx.Med.absent;
  mutex = high_owns;
  low_locked = 0;
  high_ready = 0;
  high_done = 0;
  clock = 60_000_000;
  printed = none;
}

taken_reached : Qnx.Reach taken
taken_reached =
    let created = Qnx.next Qnx.here (λ e. ground arith) (Qnx.main_creates_low refl) in
    let locked = Qnx.next created (λ e. ground arith) (Qnx.low_locks refl refl) in
    let posted = Qnx.next locked (λ e. ground arith) (Qnx.low_posts refl) in
    let spins = Qnx.next posted (λ e. ground arith) (Qnx.low_starts {now = 5} refl (omega arith)) in
    let told = Qnx.next spins (λ e. ground arith) (Qnx.main_locked {n = 0} refl refl) in
    let both = Qnx.next told (λ e. ground arith) (Qnx.main_creates_high refl) in
    let ready = Qnx.next both (λ e. ground arith) (Qnx.high_posts refl) in
    let heard = Qnx.next ready (λ e. ground arith) (Qnx.main_ready {n = 0} refl refl) in
    let waits = Qnx.next heard (λ e. ground arith) (Qnx.high_reads {now = 10} refl (omega arith)) in
    let over =
      Qnx.next waits (λ e. ground arith)
        (Qnx.low_unlocks {now = 50_000_005} refl (omega arith) (omega arith)) in
    let taking = Qnx.next over (λ e. ground arith) (Qnx.high_locks refl refl) in
    Qnx.next taking (λ e. ground arith) (Qnx.high_measures {now = 60_000_000} refl (omega arith))

high_after_low_example :
    (start : ℕ) × (taken.low ≡ Qnx.Low.finished start)
    × (start + hold_ns ≤ 60_000_000)
    × (10 ≤ 60_000_000)
high_after_low_example = high_after_low taken_reached refl

measures_example :
    (((taken.main ≡ Qnx.returned) × (w : ℕ) × (taken.printed ≡ some w))
      ⊎ ((t : Qnx.State) × Qnx.Step taken t))
    × Acc Qnx.Progress.After taken
measures_example = measures taken_reached

-- On Linux `usleep` does not make the low thread run: here the high one finds the mutex free, since
-- the low one has not got it yet, and there is no inversion to measure.
abbrev uncontended : Linux.State
uncontended = record {
  main = Linux.joins_high;
  low = Linux.Low.waiting;
  med = Linux.Med.waiting;
  high = Linux.measured 10 10;
  mutex = high_owns;
  low_start = 1;
  med_start = 1;
  high_start = 0;
  clock = 10;
  printed = none;
}

uncontended_reached : Linux.Reach uncontended
uncontended_reached =
    let one = Linux.next Linux.here (λ e. ground arith) (Linux.main_posts_low refl) in
    let two = Linux.next one (λ e. ground arith) (Linux.main_posts_med refl) in
    let three = Linux.next two (λ e. ground arith) (Linux.main_posts_high refl) in
    let started = Linux.next three (λ e. ground arith) (Linux.high_starts {n = 0} refl refl) in
    let waits =
      Linux.next started (λ e. ground arith) (Linux.high_reads {now = 10} refl (omega arith)) in
    let holds = Linux.next waits (λ e. ground arith) (Linux.high_locks refl refl) in
    Linux.next holds (λ e. ground arith) (Linux.high_measures {now = 10} refl (omega arith))

waits_end_example :
    (Ended uncontended_reached ⊎ ((t : Linux.State) × Linux.Step uncontended t))
    × Acc Linux.Wait.After uncontended
waits_end_example = waits_end uncontended_reached

-- On Linux the low thread spins from time 5 on, the high one waits from 10 on, and the medium one is
-- ready: it spins first.
abbrev inverted : Linux.State
inverted = record {
  main = Linux.joins_high;
  low = Linux.Low.spinning 5;
  med = Linux.Med.started;
  high = Linux.High.locking 10;
  mutex = low_owns;
  low_start = 0;
  med_start = 0;
  high_start = 0;
  clock = 10;
  printed = none;
}

-- The scheduler allows a run that leads there.
inverted_run : Linux.Dispatch.Run (pos 99) fifo Linux.init inverted
unfolding linux_threads ◌-ℤ◌
inverted_run =
    let begun : Linux.Dispatch.Run (pos 99) fifo Linux.init Linux.init = Linux.Dispatch.here in
    let low_may = Linux.Dispatch.next begun (λ e. ground arith) (Linux.main_posts_low refl) tt in
    let low_on =
      Linux.Dispatch.next low_may (λ e. ground arith) (Linux.low_starts {n = 0} refl refl)
        (first (λ r. omega arith) (λ r. absurd (omega arith)) (λ r. absurd (omega arith))) in
    let has =
      Linux.Dispatch.next low_on (λ e. ground arith) (Linux.low_locks refl refl)
        (first (λ r. omega arith) (λ r. absurd (omega arith)) (λ r. absurd (omega arith))) in
    let spins =
      Linux.Dispatch.next has (λ e. ground arith) (Linux.low_reads {now = 5} refl (omega arith))
        (first (λ r. omega arith) (λ r. absurd (omega arith)) (λ r. absurd (omega arith))) in
    let med_may = Linux.Dispatch.next spins (λ e. ground arith) (Linux.main_posts_med refl) tt in
    let med_on =
      Linux.Dispatch.next med_may (λ e. ground arith) (Linux.med_starts {n = 0} refl refl)
        (first (λ r. omega arith) (λ r. omega arith) (λ r. absurd (omega arith))) in
    let high_may = Linux.Dispatch.next med_on (λ e. ground arith) (Linux.main_posts_high refl) tt in
    let high_on =
      Linux.Dispatch.next high_may (λ e. ground arith) (Linux.high_starts {n = 0} refl refl)
        (first (λ r. omega arith) (λ r. omega arith) (λ r. omega arith)) in
    Linux.Dispatch.next high_on (λ e. ground arith) (Linux.high_reads {now = 10} refl (omega arith))
      (first (λ r. omega arith) (λ r. omega arith) (λ r. omega arith))

abbrev resolved : Linux.State
resolved = record inverted {
  low = Linux.Low.finished;
  med = Linux.Med.finished;
  high = Linux.High.finished;
  mutex = free;
  clock = 200_000_012;
  printed = some 200;
}

resolved_run : Linux.Dispatch.Run (pos 99) fifo inverted resolved
unfolding linux_threads ◌-ℤ◌ waited_ms
resolved_run =
    let waiting : Linux.Dispatch.Run (pos 99) fifo inverted inverted = Linux.Dispatch.here in
    let spins =
      Linux.Dispatch.next waiting (λ e. ground arith)
        (Linux.med_reads {now = 10} refl (omega arith))
        (first (λ r. omega arith) (λ r. omega arith) (λ r. absurd (ground arith))) in
    let through =
      Linux.Dispatch.next spins (λ e. ground arith)
        (Linux.med_finishes {now = 200_000_010} refl (omega arith) (omega arith))
        (first (λ r. omega arith) (λ r. omega arith) (λ r. absurd (ground arith))) in
    let released =
      Linux.Dispatch.next through (λ e. ground arith)
        (Linux.low_unlocks {now = 200_000_011} refl (omega arith) (omega arith))
        (first (λ r. omega arith) (λ r. absurd r) (λ r. absurd (ground arith))) in
    let taking =
      Linux.Dispatch.next released (λ e. ground arith) (Linux.high_locks refl refl)
        (first (λ r. absurd r) (λ r. absurd r) (λ r. omega arith)) in
    let looks =
      Linux.Dispatch.next taking (λ e. ground arith)
        (Linux.high_measures {now = 200_000_012} refl (omega arith))
        (first (λ r. absurd r) (λ r. absurd r) (λ r. omega arith)) in
    Linux.Dispatch.next looks (λ e. ground arith) (Linux.high_unlocks refl)
      (first (λ r. absurd r) (λ r. absurd r) (λ r. omega arith))

inversion_example :
    (resolved.med ≡ Linux.Med.finished)
    × (w : ℕ) × (resolved.printed ≡ some w)
    × ((10 + med_ns - 10) / 1_000_000 ≤ w)
inversion_example = inversion 10 refl refl (omega arith) resolved_run refl

-- On QNX, up to the wait of the high thread.
abbrev boosted : Qnx.State
boosted = record {
  main = Qnx.waits_ready;
  low = Qnx.Low.spinning 5;
  high = Qnx.High.locking 10;
  med = Qnx.Med.absent;
  mutex = low_owns;
  low_locked = 0;
  high_ready = 1;
  high_done = 0;
  clock = 10;
  printed = none;
}

boosted_run : Qnx.Dispatch.Run false (pos 10) (pos 63) fifo boosted
unfolding qnx_threads ◌-ℤ◌
boosted_run =
    let begun : Qnx.Dispatch.Run false (pos 10) (pos 63) fifo Qnx.init = Qnx.Dispatch.begun in
    let created = Qnx.Dispatch.goes_on begun (λ e. ground arith) (Qnx.main_creates_low refl) tt in
    let locked =
      Qnx.Dispatch.goes_on created (λ e. ground arith) (Qnx.low_locks refl refl)
        (first (λ r. omega arith) (λ r. absurd r) (λ r. absurd r)) in
    let told =
      Qnx.Dispatch.goes_on locked (λ e. ground arith) (Qnx.low_posts refl)
        (first (λ r. omega arith) (λ r. absurd r) (λ r. absurd r)) in
    let spins =
      Qnx.Dispatch.goes_on told (λ e. ground arith) (Qnx.low_starts {now = 5} refl (omega arith))
        (first (λ r. omega arith) (λ r. absurd r) (λ r. absurd r)) in
    let heard =
      Qnx.Dispatch.goes_on spins (λ e. ground arith) (Qnx.main_locked {n = 0} refl refl) tt in
    let both = Qnx.Dispatch.goes_on heard (λ e. ground arith) (Qnx.main_creates_high refl) tt in
    let ready =
      Qnx.Dispatch.goes_on both (λ e. ground arith) (Qnx.high_posts refl)
        (first (λ r. omega arith) (λ r. absurd r) (λ r. omega arith)) in
    Qnx.Dispatch.goes_on ready (λ e. ground arith) (Qnx.high_reads {now = 10} refl (omega arith))
      (first (λ r. omega arith) (λ r. absurd r) (λ r. omega arith))

no_inversion_run : IsKeptOut boosted
no_inversion_run = no_inversion refl boosted_run
