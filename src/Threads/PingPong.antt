-- ===== src/Threads/PingPong.antt =====
-- scheduling/threads/thread_ctx_switch.c: `main` and `pong_thread` hand a turn to and fro under one
-- mutex, with a condition variable for each direction. Between two operations on the mutex a
-- thread's accesses to `turn` and its signal are one step, since nobody else may look at `turn`
-- meanwhile.
pub mod Alternation
pub mod Progress
use microkernel_benchmark.Prelude.{
  ℕ, ◌+◌, ◌≤◌, ◌<◌, ◌≡◌, ◌≢◌, arith, List, [], ◌∷◌, Bool, if◌then◌else◌,
}
use microkernel_benchmark.Prelude.Int.{ℤ, pos, ltb_ℤ, ◌+ℤ◌, ◌-ℤ◌, ◌*ℤ◌}
use microkernel_benchmark.Prelude.Program.{Program, pure, require, ◌>>=◌, ◌>>◌}
use microkernel_benchmark.CString.{Bytes, atoi}
use microkernel_benchmark.Timespec.{Timespec, nsec_per_sec}

pub data Owner : Type 0 where
  free by_ping by_pong : Owner

-- `main`; `i` is its loop variable.
pub data Ping : Type 0 where
  starting : (i : ℕ) → Ping
  locked : (i : ℕ) → Ping  -- holds the mutex, `turn` not yet set
  testing : (i : ℕ) → Ping  -- holds the mutex, at the test of the while
  sleeping : (i : ℕ) → Ping  -- in pthread_cond_wait on cond_ping, the mutex released
  woken : (i : ℕ) → Ping  -- in pthread_cond_wait, to take the mutex again
  leaving : (i : ℕ) → Ping  -- behind the while, holds the mutex
  joining : Ping

-- `pong_thread`
pub data Pong : Type 0 where
  starting : (i : ℕ) → Pong
  testing : (i : ℕ) → Pong
  sleeping : (i : ℕ) → Pong
  woken : (i : ℕ) → Pong
  leaving : (i : ℕ) → Pong  -- has replied, holds the mutex
  returned : Pong

pub record State : Type 0 where
  pub turn : ℕ
  pub mutex : Owner
  pub ping : Ping
  pub pong : Pong

abbrev pub signal_ping : Ping → Ping
signal_ping (sleeping i) = woken i
signal_ping (starting i) = starting i
signal_ping (locked i) = locked i
signal_ping (testing i) = testing i
signal_ping (woken i) = woken i
signal_ping (leaving i) = leaving i
signal_ping joining = joining

abbrev pub signal_pong : Pong → Pong
signal_pong (sleeping i) = woken i
signal_pong (starting i) = starting i
signal_pong (testing i) = testing i
signal_pong (woken i) = woken i
signal_pong (leaving i) = leaving i
signal_pong returned = returned

abbrev pub init : State
init = record { turn = 0; mutex = free; ping = Ping.starting 0; pong = Pong.starting 0 }

module _ (iterations : ℕ) where
  pub data Step (s : State) : State → Type 0 where
    ping_lock :
        {i : ℕ}
        → s.ping ≡ Ping.starting i
        → i < iterations
        → s.mutex ≡ free
        → Step s (record s { mutex = by_ping; ping = locked i })
    serve :
        {i : ℕ}
        → s.ping ≡ locked i
        → Step s (record s { turn = 1; ping = Ping.testing i; pong = signal_pong s.pong })
    ping_wait :
        {i : ℕ}
        → s.ping ≡ Ping.testing i
        → s.turn ≢ 0
        → Step s (record s { mutex = free; ping = Ping.sleeping i })
    ping_relock :
        {i : ℕ}
        → s.ping ≡ Ping.woken i
        → s.mutex ≡ free
        → Step s (record s { mutex = by_ping; ping = Ping.testing i })
    ping_pass :
        {i : ℕ} → s.ping ≡ Ping.testing i → s.turn ≡ 0 → Step s (record s { ping = Ping.leaving i })
    ping_unlock :
        {i : ℕ}
        → s.ping ≡ Ping.leaving i
        → Step s (record s { mutex = free; ping = Ping.starting (i + 1) })
    ping_end :
        {i : ℕ} → s.ping ≡ Ping.starting i → iterations ≤ i → Step s (record s { ping = joining })
    pong_lock :
        {i : ℕ}
        → s.pong ≡ Pong.starting i
        → i < iterations
        → s.mutex ≡ free
        → Step s (record s { mutex = by_pong; pong = Pong.testing i })
    pong_wait :
        {i : ℕ}
        → s.pong ≡ Pong.testing i
        → s.turn ≢ 1
        → Step s (record s { mutex = free; pong = Pong.sleeping i })
    pong_relock :
        {i : ℕ}
        → s.pong ≡ Pong.woken i
        → s.mutex ≡ free
        → Step s (record s { mutex = by_pong; pong = Pong.testing i })
    reply :
        {i : ℕ}
        → s.pong ≡ Pong.testing i
        → s.turn ≡ 1
        → Step s (record s { turn = 0; ping = signal_ping s.ping; pong = Pong.leaving i })
    pong_unlock :
        {i : ℕ}
        → s.pong ≡ Pong.leaving i
        → Step s (record s { mutex = free; pong = Pong.starting (i + 1) })
    pong_end :
        {i : ℕ} → s.pong ≡ Pong.starting i → iterations ≤ i → Step s (record s { pong = returned })

  -- A wake-up without a signal, which pthread_cond_wait may make at any time.
  pub data Spurious (s : State) : State → Type 0 where
    wake_ping : {i : ℕ} → s.ping ≡ Ping.sleeping i → Spurious s (record s { ping = Ping.woken i })
    wake_pong : {i : ℕ} → s.pong ≡ Pong.sleeping i → Spurious s (record s { pong = Pong.woken i })

  pub data Reach : State → Type 0 where
    here : Reach init
    next : {s t : State} → Reach s → Step s t → Reach t
    woke : {s t : State} → Reach s → Spurious s t → Reach t

-- ITERATIONS_DEFAULT
abbrev pub iterations_default : ℕ
iterations_default = 100_000

-- `iterations`, from the arguments behind the program's name.
unfoldable pub iterations_of : List Bytes → ℤ
unfolding atoi
iterations_of [] = pos iterations_default
iterations_of (arg ∷ _) = if ltb_ℤ (pos 0) (atoi arg) then atoi arg else pos iterations_default

unfoldable pub total_ns : Timespec → Timespec → ℤ
total_ns start end =
    (pos end.tv_sec -ℤ pos start.tv_sec) *ℤ pos nsec_per_sec
    +ℤ (pos end.tv_nsec -ℤ pos start.tv_nsec)

-- What is printed: the number of rounds and the time between the two readings of the clock;
-- `created` says whether the thread was created. The averages are the quotient of the two.
unfoldable pub main : Bool → Timespec → Timespec → List Bytes → Program (ℤ × ℤ)
unfolding iterations_of total_ns
main created start end args = do
  require created "pthread_create"
  pure (iterations_of args, total_ns start end)
