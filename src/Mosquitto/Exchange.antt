-- ===== src/Mosquitto/Exchange.antt =====
-- The exchange between the two threads of each program: `main` publishes and waits, the network
-- thread of the client library calls `on_message`. They share the arrays of times, the count of
-- received messages, a mutex and a condition variable. `count` is COUNT.
use microkernel_benchmark.Prelude.{ℕ, ◌+◌, ◌≤◌, ◌<◌, ◌≡◌, List, set, ltb, ◌==◌, if◌then◌else◌}

pub data Owner : Type 0 where
  free by_main by_net : Owner

-- `main`: the publishing loop, then the wait under `recv_mutex`.
pub data Main : Type 0 where
  publishing : (i : ℕ) → Main
  locking : Main
  checking : Main  -- holds the mutex, at the test of the while
  sleeping : Main  -- in pthread_cond_wait, the mutex released
  woken : Main  -- in pthread_cond_wait, to take the mutex again
  leaving : Main  -- behind the while, holds the mutex
  finished : Main

-- The network thread: between callbacks, or in the branch of `on_message` for the last message.
pub data Net : Type 0 where
  idle : Net
  locking : Net
  signalling : Net
  unlocking : Net

pub record Exchange : Type 0 where
  pub send_times : List ℕ
  pub recv_times : List ℕ
  pub recv_count : ℕ
  pub mutex : Owner
  pub main : Main
  pub net : Net

-- pthread_cond_signal wakes the thread that sleeps, if it does, and is lost otherwise.
abbrev pub signal : Main → Main
signal sleeping = woken
signal (publishing i) = publishing i
signal Main.locking = Main.locking
signal checking = checking
signal woken = woken
signal leaving = leaving
signal finished = finished

module _ (count : ℕ) where
  -- The start of a run: `recv_count = 0`, the arrays as they were left.
  abbrev pub init : List ℕ → List ℕ → Exchange
  init send_times recv_times = record {
    send_times = send_times;
    recv_times = recv_times;
    recv_count = 0;
    mutex = free;
    main = publishing 0;
    net = idle;
  }

  -- `on_message` up to the mutex, at time `now`.
  unfoldable pub on_message : ℕ → Exchange → Exchange
  on_message now s =
      if ltb s.recv_count count
      then record s {
        recv_times = set s.recv_times s.recv_count now;
        recv_count = s.recv_count + 1;
        net = if s.recv_count + 1 == count then Net.locking else idle;
      }
      else s

  pub data Step (s : Exchange) : Exchange → Type 0 where
    publish :
        {i : ℕ} (now : ℕ)
        → s.main ≡ publishing i
        → i < count
        → Step s (record s { send_times = set s.send_times i now; main = publishing (i + 1) })
    published :
        {i : ℕ} → s.main ≡ publishing i → count ≤ i → Step s (record s { main = Main.locking })
    lock :
        s.main ≡ Main.locking
        → s.mutex ≡ free
        → Step s (record s { mutex = by_main; main = checking })
    wait :
        s.main ≡ checking
        → s.recv_count < count
        → Step s (record s { mutex = free; main = sleeping })
    spurious : s.main ≡ sleeping → Step s (record s { main = woken })
    relock :
        s.main ≡ woken → s.mutex ≡ free → Step s (record s { mutex = by_main; main = checking })
    leave : s.main ≡ checking → count ≤ s.recv_count → Step s (record s { main = leaving })
    unlock : s.main ≡ leaving → Step s (record s { mutex = free; main = finished })
    message : (now : ℕ) → s.net ≡ idle → Step s (on_message now s)
    net_lock :
        s.net ≡ Net.locking
        → s.mutex ≡ free
        → Step s (record s { mutex = by_net; net = signalling })
    net_signal : s.net ≡ signalling → Step s (record s { main = signal s.main; net = unlocking })
    net_unlock : s.net ≡ unlocking → Step s (record s { mutex = free; net = idle })

  pub data Reach (s : Exchange) : Exchange → Type 0 where
    here : Reach s s
    next : {t u : Exchange} → Reach s t → Step t u → Reach s u
