-- ===== src/Threads/PingPong/Alternation.antt =====
-- The calls of `main` in thread_ctx_switch.c and the replies to them.
use microkernel_benchmark.Prelude.{ℕ, ◌+◌, ◌≤◌, ◌<◌, ◌≡◌, arith}
use microkernel_benchmark.Threads.PingPong.{
  Owner, by_ping, by_pong, Ping, locked, joining, Pong, returned, State, Step, ping_lock, serve,
  ping_wait, ping_relock, ping_pass, ping_unlock, ping_end, pong_lock, pong_wait, pong_relock,
  reply, pong_unlock, pong_end, Spurious, wake_ping, wake_pong, Reach, here, next, woke,
}

abbrev pub ping_owns : Ping → ℕ
ping_owns (locked _) = 1
ping_owns (Ping.testing _) = 1
ping_owns (Ping.leaving _) = 1
ping_owns _ = 0

abbrev pub pong_owns : Pong → ℕ
pong_owns (Pong.testing _) = 1
pong_owns (Pong.leaving _) = 1
pong_owns _ = 0

abbrev pub by_ping? : Owner → ℕ
by_ping? by_ping = 1
by_ping? _ = 0

abbrev pub by_pong? : Owner → ℕ
by_pong? by_pong = 1
by_pong? _ = 0

module _ (n : ℕ) where
  -- How often `main` has passed the turn, and how often `pong_thread` has passed it back.
  abbrev pub calls : Ping → ℕ
  calls (Ping.starting i) = i
  calls (locked i) = i
  calls (Ping.testing i) = i + 1
  calls (Ping.sleeping i) = i + 1
  calls (Ping.woken i) = i + 1
  calls (Ping.leaving i) = i + 1
  calls joining = n

  abbrev pub replies : Pong → ℕ
  replies (Pong.starting i) = i
  replies (Pong.testing i) = i
  replies (Pong.sleeping i) = i
  replies (Pong.woken i) = i
  replies (Pong.leaving i) = i + 1
  replies returned = n

  abbrev pub PingPlace : Ping → ℕ → Type 0
  PingPlace (Ping.starting i) turn = (i ≤ n) × (turn ≡ 0)
  PingPlace (locked i) turn = (i < n) × (turn ≡ 0)
  PingPlace (Ping.testing i) turn = i < n
  PingPlace (Ping.sleeping i) turn = (i < n) × (turn ≡ 1)
  PingPlace (Ping.woken i) turn = i < n
  PingPlace (Ping.leaving i) turn = (i < n) × (turn ≡ 0)
  PingPlace joining turn = turn ≡ 0

  abbrev pub PongPlace : Pong → ℕ → Type 0
  PongPlace (Pong.starting i) turn = i ≤ n
  PongPlace (Pong.testing i) turn = i < n
  PongPlace (Pong.sleeping i) turn = (i < n) × (turn ≡ 0)
  PongPlace (Pong.woken i) turn = i < n
  PongPlace (Pong.leaving i) turn = (i < n) × (turn ≡ 0)
  PongPlace returned turn = Unit

  pub record Inv (s : State) : Type 0 where
    pub ping_mutex : by_ping? s.mutex ≡ ping_owns s.ping
    pub pong_mutex : by_pong? s.mutex ≡ pong_owns s.pong
    pub binary : s.turn ≤ 1
    pub answered : replies s.pong + s.turn ≡ calls s.ping
    pub ping_place : PingPlace s.ping s.turn
    pub pong_place : PongPlace s.pong s.turn

  Step-Inv : {s t : State} → Step n s t → Inv s → Inv t
  Step-Inv (ping_lock e lt f) v = ground arith
  Step-Inv (serve e) v = ground arith
  Step-Inv (ping_wait e ne) v = ground arith
  Step-Inv (ping_relock e f) v = ground arith
  Step-Inv (ping_pass e z) v = ground arith
  Step-Inv (ping_unlock e) v = ground arith
  Step-Inv (ping_end e le) v = ground arith
  Step-Inv (pong_lock e lt f) v = ground arith
  Step-Inv (pong_wait e ne) v = ground arith
  Step-Inv (pong_relock e f) v = ground arith
  Step-Inv (reply e one) v = ground arith
  Step-Inv (pong_unlock e) v = ground arith
  Step-Inv (pong_end e le) v = ground arith

  Spurious-Inv : {s t : State} → Spurious n s t → Inv s → Inv t
  Spurious-Inv (wake_ping e) v = ground arith
  Spurious-Inv (wake_pong e) v = ground arith

  pub Reach-Inv : {s : State} → Reach n s → Inv s
  Reach-Inv here = omega arith
  Reach-Inv (next r st) = Step-Inv st (Reach-Inv r)
  Reach-Inv (woke r sp) = Spurious-Inv sp (Reach-Inv r)

  -- Every call but the one under way has been answered exactly once, and the two threads are never
  -- both inside the mutex.
  pub calls_answered :
      {s : State}
      → Reach n s
      → (replies s.pong + s.turn ≡ calls s.ping)
        × (s.turn ≤ 1)
        × (ping_owns s.ping + pong_owns s.pong ≤ 1)
  calls_answered {s} r =
      let v = Reach-Inv r in (v.answered, v.binary, ground (arith, v.ping_mutex, v.pong_mutex))
