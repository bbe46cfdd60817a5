-- ===== src/Priority/Linux.antt =====
-- linux_priority_inversion.c as a step relation: `main`, its three threads, which `main` has
-- created before, a semaphore that starts each of them, and the mutex.
pub mod Order
pub mod Readings
pub mod Wait
pub mod Dispatch
pub mod Inversion
use microkernel_benchmark.Prelude.{ℕ, ◌+◌, ◌-◌, ◌≤◌, ◌≡◌, ◌≢◌, Option, none, some}
use microkernel_benchmark.Priority.{Owner, free, low_owns, high_owns, hold_ns, med_ns, waited_ms}

-- Where `main` stands behind the last `pthread_create`; `usleep` says nothing of what the others
-- do.
pub data Main : Type 0 where
  posts_low : Main
  posts_med : Main
  posts_high : Main
  joins_high : Main
  returned : Main

pub data Low : Type 0 where
  waiting : Low
  locking : Low
  locked : Low  -- about to read the clock
  spinning : (start : ℕ) → Low
  finished : Low

pub data Med : Type 0 where
  waiting : Med
  started : Med
  spinning : (start : ℕ) → Med
  finished : Med

pub data High : Type 0 where
  waiting : High
  started : High
  locking : (t0 : ℕ) → High
  holding : (t0 : ℕ) → High
  measured : (t0 t1 : ℕ) → High
  finished : High

pub record State : Type 0 where
  pub main : Main
  pub low : Low
  pub med : Med
  pub high : High
  pub mutex : Owner
  pub low_start : ℕ
  pub med_start : ℕ
  pub high_start : ℕ
  pub clock : ℕ  -- the latest reading of any thread
  pub printed : Option ℕ

abbrev pub init : State
init = record {
  main = posts_low;
  low = Low.waiting;
  med = Med.waiting;
  high = High.waiting;
  mutex = free;
  low_start = 0;
  med_start = 0;
  high_start = 0;
  clock = 0;
  printed = none;
}

-- A step of one thread; the readings of the clock are as in the program for QNX.
pub data Step (s : State) : State → Type 0 where
  main_posts_low :
      s.main ≡ posts_low → Step s (record s { main = posts_med; low_start = s.low_start + 1 })
  main_posts_med :
      s.main ≡ posts_med → Step s (record s { main = posts_high; med_start = s.med_start + 1 })
  main_posts_high :
      s.main ≡ posts_high → Step s (record s { main = joins_high; high_start = s.high_start + 1 })
  main_joins : s.main ≡ joins_high → s.high ≡ High.finished → Step s (record s { main = returned })
  low_starts :
      {n : ℕ}
      → s.low ≡ Low.waiting
      → s.low_start ≡ n + 1
      → Step s (record s { low = Low.locking; low_start = n })
  low_locks :
      s.low ≡ Low.locking → s.mutex ≡ free → Step s (record s { low = locked; mutex = low_owns })
  low_reads :
      {now : ℕ}
      → s.low ≡ locked
      → s.clock ≤ now
      → Step s (record s { low = Low.spinning now; clock = now })
  low_unlocks :
      {now start : ℕ}
      → s.low ≡ Low.spinning start
      → s.clock ≤ now
      → hold_ns ≤ now - start
      → Step s (record s { low = Low.finished; mutex = free; clock = now })
  med_starts :
      {n : ℕ}
      → s.med ≡ Med.waiting
      → s.med_start ≡ n + 1
      → Step s (record s { med = Med.started; med_start = n })
  med_reads :
      {now : ℕ}
      → s.med ≡ Med.started
      → s.clock ≤ now
      → Step s (record s { med = Med.spinning now; clock = now })
  med_finishes :
      {now start : ℕ}
      → s.med ≡ Med.spinning start
      → s.clock ≤ now
      → med_ns ≤ now - start
      → Step s (record s { med = Med.finished; clock = now })
  high_starts :
      {n : ℕ}
      → s.high ≡ High.waiting
      → s.high_start ≡ n + 1
      → Step s (record s { high = High.started; high_start = n })
  high_reads :
      {now : ℕ}
      → s.high ≡ High.started
      → s.clock ≤ now
      → Step s (record s { high = High.locking now; clock = now })
  high_locks :
      {t0 : ℕ}
      → s.high ≡ High.locking t0
      → s.mutex ≡ free
      → Step s (record s { high = holding t0; mutex = high_owns })
  high_measures :
      {now t0 : ℕ}
      → s.high ≡ holding t0
      → s.clock ≤ now
      → Step s (record s { high = measured t0 now; clock = now })
  high_unlocks :
      {t0 t1 : ℕ}
      → s.high ≡ measured t0 t1
      → Step s (record s { high = High.finished; mutex = free; printed = some (waited_ms t0 t1) })

-- When `main` returns, the threads end with it.
pub data Reach : State → Type 0 where
  here : Reach init
  next : {s t : State} → Reach s → s.main ≢ returned → Step s t → Reach t
