-- ===== src/Priority/Qnx.antt =====
-- qnx_priority_inversion.c as a step relation: `main` and its three threads, three semaphores, the
-- mutex.
pub mod Order
pub mod Progress
pub mod Dispatch
pub mod Inheritance
pub mod Attributes
use microkernel_benchmark.Prelude.{ℕ, ◌+◌, ◌-◌, ◌≤◌, ◌≡◌, ◌≢◌, Option, none, some}
use microkernel_benchmark.Priority.{Owner, free, low_owns, high_owns, hold_ns, med_ns, waited_ms}

-- Where `main` stands, from the first `pthread_create` on.
pub data Main : Type 0 where
  creates_low : Main
  waits_locked : Main
  creates_high : Main
  waits_ready : Main
  creates_med : Main
  waits_done : Main
  returned : Main

pub data Low : Type 0 where
  absent : Low
  locking : Low
  locked : Low  -- about to post
  posted : Low  -- about to read the clock
  spinning : (start : ℕ) → Low
  finished : (start : ℕ) → Low

pub data High : Type 0 where
  absent : High
  starting : High
  ready : High  -- has posted, about to read the clock
  locking : (t0 : ℕ) → High
  holding : (t0 : ℕ) → High  -- about to read the clock
  measured : (t0 t1 : ℕ) → High
  unlocked : High
  finished : High

pub data Med : Type 0 where
  absent : Med
  starting : Med
  spinning : (start : ℕ) → Med
  finished : Med

pub record State : Type 0 where
  pub main : Main
  pub low : Low
  pub high : High
  pub med : Med
  pub mutex : Owner
  pub low_locked : ℕ
  pub high_ready : ℕ
  pub high_done : ℕ
  pub clock : ℕ  -- the latest reading of any thread
  pub printed : Option ℕ

abbrev pub init : State
init = record {
  main = creates_low;
  low = Low.absent;
  high = High.absent;
  med = Med.absent;
  mutex = free;
  low_locked = 0;
  high_ready = 0;
  high_done = 0;
  clock = 0;
  printed = none;
}

-- A step of one thread. A step that reads the clock gets a reading `now`, not before the last one;
-- a thread that spins takes its step at the reading that ends the loop.
pub data Step (s : State) : State → Type 0 where
  main_creates_low :
      s.main ≡ creates_low → Step s (record s { main = waits_locked; low = Low.locking })
  main_locked :
      {n : ℕ}
      → s.main ≡ waits_locked
      → s.low_locked ≡ n + 1
      → Step s (record s { main = creates_high; low_locked = n })
  main_creates_high :
      s.main ≡ creates_high → Step s (record s { main = waits_ready; high = High.starting })
  main_ready :
      {n : ℕ}
      → s.main ≡ waits_ready
      → s.high_ready ≡ n + 1
      → Step s (record s { main = creates_med; high_ready = n })
  main_creates_med :
      s.main ≡ creates_med → Step s (record s { main = waits_done; med = Med.starting })
  main_done :
      {n : ℕ}
      → s.main ≡ waits_done
      → s.high_done ≡ n + 1
      → Step s (record s { main = returned; high_done = n })
  low_locks :
      s.low ≡ Low.locking
      → s.mutex ≡ free
      → Step s (record s { low = Low.locked; mutex = low_owns })
  low_posts : s.low ≡ Low.locked → Step s (record s { low = posted; low_locked = s.low_locked + 1 })
  low_starts :
      {now : ℕ}
      → s.low ≡ posted
      → s.clock ≤ now
      → Step s (record s { low = Low.spinning now; clock = now })
  low_unlocks :
      {now start : ℕ}
      → s.low ≡ Low.spinning start
      → s.clock ≤ now
      → hold_ns ≤ now - start
      → Step s (record s { low = Low.finished start; mutex = free; clock = now })
  high_posts :
      s.high ≡ High.starting → Step s (record s { high = ready; high_ready = s.high_ready + 1 })
  high_reads :
      {now : ℕ}
      → s.high ≡ ready
      → s.clock ≤ now
      → Step s (record s { high = High.locking now; clock = now })
  high_locks :
      {t0 : ℕ}
      → s.high ≡ High.locking t0
      → s.mutex ≡ free
      → Step s (record s { high = holding t0; mutex = high_owns })
  high_measures :
      {now t0 : ℕ}
      → s.high ≡ holding t0
      → s.clock ≤ now
      → Step s (record s { high = measured t0 now; clock = now })
  high_unlocks :
      {t0 t1 : ℕ}
      → s.high ≡ measured t0 t1
      → Step s (record s { high = unlocked; mutex = free; printed = some (waited_ms t0 t1) })
  high_finishes :
      s.high ≡ unlocked → Step s (record s { high = High.finished; high_done = s.high_done + 1 })
  med_starts :
      {now : ℕ}
      → s.med ≡ Med.starting
      → s.clock ≤ now
      → Step s (record s { med = Med.spinning now; clock = now })
  med_finishes :
      {now start : ℕ}
      → s.med ≡ Med.spinning start
      → s.clock ≤ now
      → med_ns ≤ now - start
      → Step s (record s { med = Med.finished; clock = now })

-- When `main` returns, the threads end with it.
pub data Reach : State → Type 0 where
  here : Reach init
  next : {s t : State} → Reach s → s.main ≢ returned → Step s t → Reach t
