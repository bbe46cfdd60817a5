-- ===== src/Threads/PingPong/Progress.antt =====
-- thread_ctx_switch.c: the steps that its threads can take, and what they have left to do.
use mathlib.Core.WellFounded.{Acc}
use native.Mathlib.Decide.{dec_lt, ℕ_discrete}
use microkernel_benchmark.Prelude.{ℕ, ◌+◌, ◌-◌, ◌*◌, ◌≤◌, ◌<◌, ◌≡◌, ◌⊎◌, inl, inr, refl, arith}
use microkernel_benchmark.Prelude.Descent.{descent-Acc}
use microkernel_benchmark.Threads.PingPong.{
  Owner, free, by_ping, by_pong, Ping, locked, joining, Pong, returned, State, Step, ping_lock,
  serve, ping_wait, ping_relock, ping_pass, ping_unlock, ping_end, pong_lock, pong_wait,
  pong_relock, reply, pong_unlock, pong_end, signal_ping, signal_pong, Reach, next,
}
use microkernel_benchmark.Threads.PingPong.Alternation.{
  calls, replies, ping_owns, pong_owns, PingPlace, PongPlace, Inv, Reach-Inv,
}

-- How far a thread is from its next pass of the turn, or from its sleep.
abbrev pub ping_distance : Ping → ℕ
ping_distance (Ping.woken _) = 6
ping_distance (Ping.testing _) = 5
ping_distance (Ping.leaving _) = 4
ping_distance (Ping.starting _) = 3
ping_distance (locked _) = 2
ping_distance (Ping.sleeping _) = 1
ping_distance joining = 0

abbrev pub pong_distance : Pong → ℕ
pong_distance (Pong.leaving _) = 8
pong_distance (Pong.starting _) = 7
pong_distance (Pong.woken _) = 6
pong_distance (Pong.testing _) = 5
pong_distance (Pong.sleeping _) = 1
pong_distance returned = 0

module _ (n : ℕ) where
  abbrev pub rank : State → ℕ
  rank s =
      10 * (n + n - (calls n s.ping + replies n s.pong))
      + ping_distance s.ping
      + pong_distance s.pong

  signal_pong_lem :
      (p : Pong)
      → (replies n (signal_pong p) ≡ replies n p)
        × (pong_distance (signal_pong p) ≤ pong_distance p + 5)
  signal_pong_lem (Pong.sleeping i) = omega arith
  signal_pong_lem p = omega arith

  signal_ping_lem :
      (p : Ping)
      → (calls n (signal_ping p) ≡ calls n p)
        × (ping_distance (signal_ping p) ≤ ping_distance p + 5)
  signal_ping_lem (Ping.sleeping i) = omega arith
  signal_ping_lem p = omega arith

  Inv-le : {s : State} → Inv n s → (calls n s.ping ≤ n) × (replies n s.pong ≤ n)
  Inv-le {s} v = (within s.ping v.ping_place, behind s.pong v.pong_place)
    where
      within : (p : Ping) → PingPlace n p s.turn → calls n p ≤ n
      within (Ping.starting i) h = omega arith
      within p h = omega arith

      behind : (p : Pong) → PongPlace n p s.turn → replies n p ≤ n
      behind (Pong.starting i) h = omega arith
      behind p h = omega arith

  descends-Step : {s t : State} → Step n s t → Inv n s → rank t < rank s
  descends-Step {s} (ping_lock e lt f) v = ground arith
  descends-Step {s} (serve e) v = ground (arith, signal_pong_lem s.pong, Inv-le v)
  descends-Step (ping_wait e ne) v = ground arith
  descends-Step (ping_relock e f) v = ground arith
  descends-Step (ping_pass e z) v = ground arith
  descends-Step (ping_unlock e) v = ground arith
  descends-Step (ping_end e le) v = ground arith
  descends-Step (pong_lock e lt f) v = ground arith
  descends-Step (pong_wait e ne) v = ground arith
  descends-Step (pong_relock e f) v = ground arith
  descends-Step {s} (reply e one) v = ground (arith, signal_ping_lem s.ping, Inv-le v)
  descends-Step (pong_unlock e) v = ground arith
  descends-Step (pong_end e le) v = ground arith

  AreThrough : State → Type 0
  AreThrough s = (s.ping ≡ joining) × (s.pong ≡ returned)

  Enabled : State → Type 0
  Enabled s = (t : State) × Step n s t

  module _ (s : State) (v : Inv n s) where
    -- Who holds the mutex can move.
    pong_moves : (p : Pong) → s.pong ≡ p → pong_owns p ≡ 1 → Enabled s
    unfolding Enabled
    pong_moves (Pong.testing i) e o = elim (ℕ_discrete s.turn 1) [
      | yes one ↦ (_, reply e one)
      | no ne ↦ (_, pong_wait e ne)
    ]
    pong_moves (Pong.leaving i) e o = (_, pong_unlock e)
    pong_moves (Pong.starting i) e o = absurd (omega arith)
    pong_moves p e o = absurd (omega arith)

    -- `main` at the mutex: it is free, or the other thread holds it.
    ping_enters :
        (o : Owner) → s.mutex ≡ o → ping_owns s.ping ≡ 0 → (s.mutex ≡ free → Enabled s) → Enabled s
    ping_enters free f z enter = enter f
    ping_enters by_ping f z enter = absurd (ground (arith, v.ping_mutex))
    ping_enters by_pong f z enter = pong_moves s.pong refl (ground (arith, v.pong_mutex))

    -- While `main` sleeps, `pong_thread` has a reply to make.
    pong_replies :
        (p : Pong)
        → s.pong ≡ p
        → (i : ℕ) → s.ping ≡ Ping.sleeping i
        → (o : Owner) → s.mutex ≡ o
        → Enabled s
    unfolding Enabled
    pong_replies (Pong.starting j) e i asleep free f = (_, pong_lock e (ground arith) f)
    pong_replies (Pong.woken j) e i asleep free f = (_, pong_relock e f)
    pong_replies (Pong.testing j) e i asleep o f = (_, reply e (ground arith))
    pong_replies (Pong.sleeping j) e i asleep o f = absurd (ground arith)
    pong_replies (Pong.leaving j) e i asleep o f = absurd (ground arith)
    pong_replies returned e i asleep o f = absurd (ground arith)
    pong_replies p e i asleep o f = absurd (ground arith)

    -- When `main` waits in pthread_join, `pong_thread` has only to return.
    pong_returns : (p : Pong) → s.pong ≡ p → s.ping ≡ joining → AreThrough s ⊎ Enabled s
    unfolding Enabled AreThrough
    pong_returns returned e j = inl (j, e)
    pong_returns (Pong.starting i) e j = inr (_, pong_end e (ground arith))
    pong_returns (Pong.leaving i) e j = inr (_, pong_unlock e)
    pong_returns p e j = absurd (ground arith)

    enabled : (p : Ping) → s.ping ≡ p → AreThrough s ⊎ Enabled s
    unfolding Enabled
    enabled (locked i) e = inr (_, serve e)
    enabled (Ping.leaving i) e = inr (_, ping_unlock e)
    enabled (Ping.testing i) e = elim (ℕ_discrete s.turn 0) [
      | yes at_zero ↦ inr (_, ping_pass e at_zero)
      | no ne ↦ inr (_, ping_wait e ne)
    ]
    enabled (Ping.woken i) e =
        inr (ping_enters s.mutex refl (ground arith) (λ f. (_, ping_relock e f)))
    enabled (Ping.starting i) e = elim (dec_lt i n) [
      | yes lt ↦ inr (ping_enters s.mutex refl (ground arith) (λ f. (_, ping_lock e lt f)))
      | no ge ↦ inr (_, ping_end e (omega arith))
    ]
    enabled (Ping.sleeping i) e = inr (pong_replies s.pong refl i e s.mutex refl)
    enabled joining e = pong_returns s.pong refl e

  -- No state that the two threads can reach is a deadlock: both are through, or one can move
  -- without waiting for a spurious wake-up.
  pub deadlock_free :
      {s : State}
      → Reach n s
      → ((s.ping ≡ joining) × (s.pong ≡ returned)) ⊎ ((t : State) × Step n s t)
  unfolding Enabled AreThrough
  deadlock_free {s} r = enabled s (Reach-Inv n r) s.ping refl

  -- In a reachable state, every step but a spurious wake-up lowers the rank: what the two threads
  -- have left to do.
  pub Step-descends : {s t : State} → Reach n s → Step n s t → rank t < rank s
  Step-descends r st = descends-Step st (Reach-Inv n r)

  -- `t` comes after `s` by a step that is not a spurious wake-up.
  abbrev pub After : State → State → Type 0
  After t s = Step n s t

  -- In every reachable state both threads are through, or one of them can take a step that is not a
  -- spurious wake-up; and no sequence of such steps goes on for ever.
  pub always_moves :
      {s : State}
      → Reach n s
      → (((s.ping ≡ joining) × (s.pong ≡ returned)) ⊎ ((t : State) × Step n s t)) × Acc After s
  always_moves {s} r = (
    deadlock_free r,
    descent-Acc After (Reach n) rank (λ s t r st. (next r st, Step-descends r st)) s r,
  )
