-- ===== src/Mosquitto/Wait.antt =====
-- The wait of `main` for the last message, and the signal for it.
use native.Mathlib.Decide.{dec_lt}
use microkernel_benchmark.Prelude.{
  ℕ, ◌+◌, ◌-◌, ◌≤◌, ◌<◌, ◌≡◌, ◌≢◌, refl, ◌⊎◌, inl, inr, arith, List,
}
use microkernel_benchmark.Mosquitto.Exchange.{
  Owner, free, by_main, by_net, Main, publishing, checking, sleeping, woken, leaving, finished, Net,
  idle, signalling, unlocking, Exchange, signal, init, on_message, Step, publish, published, lock,
  wait, spurious, relock, leave, unlock, message, net_lock, net_signal, net_unlock, Reach, here,
  next,
}

-- Who must own the mutex where a thread stands.
abbrev main_owns : Main → ℕ
main_owns checking = 1
main_owns leaving = 1
main_owns _ = 0

abbrev net_owns : Net → ℕ
net_owns signalling = 1
net_owns unlocking = 1
net_owns _ = 0

abbrev by_main? : Owner → ℕ
by_main? by_main = 1
by_main? _ = 0

abbrev by_net? : Owner → ℕ
by_net? by_net = 1
by_net? _ = 0

-- The signal for the last message is still to come.
abbrev pub IsComing : Net → Type 0
IsComing Net.locking = Unit
IsComing signalling = Unit
IsComing _ = ⊥

abbrev Asleep : ℕ → ℕ → Main → Net → Type 0
Asleep count received sleeping net = (received < count) ⊎ IsComing net
Asleep count received leaving net = received ≡ count
Asleep count received finished net = received ≡ count
Asleep count received (publishing i) net = i ≤ count
Asleep count received _ net = Unit

abbrev pub net_rank : Net → ℕ
net_rank idle = 0
net_rank unlocking = 1
net_rank signalling = 2
net_rank Net.locking = 3

module _ (count : ℕ) where
  abbrev pub main_rank : Main → ℕ
  main_rank finished = 0
  main_rank leaving = 1
  main_rank checking = 2
  main_rank woken = 3
  main_rank Main.locking = 3
  main_rank sleeping = 4
  main_rank (publishing i) = 4 + (count - i)

  unowned : (o : Owner) → by_main? o ≡ 0 → by_net? o ≡ 0 → o ≡ free
  unowned free m n = refl
  unowned by_main m n = absurd (omega arith)
  unowned by_net m n = absurd (omega arith)

  record Inv (s : Exchange) : Type 0 where
    main_mutex : by_main? s.mutex ≡ main_owns s.main
    net_mutex : by_net? s.mutex ≡ net_owns s.net
    bounded : s.recv_count ≤ count
    last : s.net ≢ idle → s.recv_count ≡ count
    wakes : Asleep count s.recv_count s.main s.net

  Step-Inv : {s t : Exchange} → Step count s t → Inv s → Inv t
  unfolding on_message
  Step-Inv (publish now e lt) v = ground arith
  Step-Inv (published e le) v = ground arith
  Step-Inv (lock e f) v = ground arith
  Step-Inv (wait e lt) v = ground arith
  Step-Inv (spurious e) v = ground arith
  Step-Inv (relock e f) v = ground arith
  Step-Inv (leave e le) v = ground arith
  Step-Inv (unlock e) v = ground arith
  Step-Inv (message now e) v = ground arith
  Step-Inv (net_lock e f) v = ground arith
  Step-Inv (net_signal e) v = ground arith
  Step-Inv (net_unlock e) v = ground arith

  -- At the start nothing has been received, and COUNT may be 0 only if nothing is awaited.
  init-Inv : (sends receipts : List ℕ) → Inv (init count sends receipts)
  init-Inv sends receipts = record {
    main_mutex = refl;
    net_mutex = refl;
    bounded = omega arith;
    last = λ ne. absurd (ne refl);
    wakes = omega arith;
  }

  Reach-Inv : {s t : Exchange} → Reach count s t → Inv s → Inv t
  Reach-Inv here v = v
  Reach-Inv (next r st) v = Step-Inv st (Reach-Inv r v)

  module _ {sends receipts : List ℕ} {s : Exchange}
      (r : Reach count (init count sends receipts) s) where
    reached : Inv s
    reached = Reach-Inv r (init-Inv sends receipts)

    -- If `main` sleeps although the last message has come, the signal for it is still to come.
    pub no_lost_wakeup : s.recv_count ≡ count → s.main ≡ sleeping → IsComing s.net
    no_lost_wakeup e asleep = ground (arith, reached.wakes)

    -- When `main` has come out of its wait, all messages have been received, and the mutex is not
    -- left with `main`.
    pub finished_complete : s.main ≡ finished → (s.recv_count ≡ count) × (s.mutex ≢ by_main)
    finished_complete e =
        (ground (arith, reached.wakes), λ held. ground (arith, reached.main_mutex))

    -- When the network thread has nothing to do either, nobody holds the mutex.
    pub finished_free : s.main ≡ finished → s.net ≡ idle → s.mutex ≡ free
    finished_free e f =
        unowned s.mutex (ground (arith, reached.main_mutex)) (ground (arith, reached.net_mutex))

  -- What is left to do, once all messages have come.
  abbrev pub rank : Exchange → ℕ
  rank s = main_rank s.main + net_rank s.net

  signal-rank : (m : Main) → main_rank (signal m) ≤ main_rank m
  signal-rank sleeping = omega arith
  signal-rank m = omega arith

  -- A step that a thread takes by itself, and not a wake-up without a signal.
  abbrev pub IsDeliberate : {s t : Exchange} → Step count s t → Type 0
  IsDeliberate (spurious e) = ⊥
  IsDeliberate _ = Unit

  Descends : Exchange → Type 0
  Descends s = (t : Exchange) × (st : Step count s t) × IsDeliberate st × (rank t < rank s)

  module _ (s : Exchange) (v : Inv s) (all : s.recv_count ≡ count) where
    net_step : (n : Net) → s.net ≡ n → by_net? s.mutex ≡ 1 → Descends s
    unfolding Descends
    net_step idle e o = absurd (ground (arith, v.net_mutex))
    net_step Net.locking e o = absurd (ground (arith, v.net_mutex))
    net_step signalling e o = (_, net_signal e, tt, ground (arith, signal-rank s.main))
    net_step unlocking e o = (_, net_unlock e, tt, ground arith)

    -- `main` wants the mutex: it is free, or the network thread will release it.
    wants_mutex :
        (o : Owner) → s.mutex ≡ o → (s.main ≡ Main.locking) ⊎ (s.main ≡ woken) → Descends s
    unfolding Descends
    wants_mutex free o (inl e) = (_, lock e o, tt, ground arith)
    wants_mutex free o (inr e) = (_, relock e o, tt, ground arith)
    wants_mutex by_net o m = net_step s.net refl (ground arith)
    wants_mutex by_main o m = absurd (ground (arith, v.main_mutex))

    asleep : (n : Net) → s.net ≡ n → s.main ≡ sleeping → (o : Owner) → s.mutex ≡ o → Descends s
    unfolding Descends
    asleep idle e m o h = absurd (ground (arith, v.wakes))
    asleep unlocking e m o h = absurd (ground (arith, v.wakes))
    asleep signalling e m o h = (_, net_signal e, tt, ground (arith, signal-rank s.main))
    asleep Net.locking e m free h = (_, net_lock e h, tt, ground arith)
    asleep Net.locking e m by_main h = absurd (ground (arith, v.main_mutex))
    asleep Net.locking e m by_net h = absurd (ground (arith, v.net_mutex))

    descends : (m : Main) → s.main ≡ m → (s.main ≡ finished) ⊎ Descends s
    unfolding Descends
    descends finished e = inl e
    descends leaving e = inr (_, unlock e, tt, ground arith)
    descends checking e = inr (_, leave e (omega arith), tt, ground arith)
    descends woken e = inr (wants_mutex s.mutex refl (inr e))
    descends Main.locking e = inr (wants_mutex s.mutex refl (inl e))
    descends sleeping e = inr (asleep s.net refl e s.mutex refl)
    descends (publishing i) e = elim (dec_lt i count) [
      | yes lt ↦ inr (_, publish 0 e lt, tt, ground arith)
      | no ge ↦ inr (_, published e (omega arith), tt, ground arith)
    ]

  -- Once the last message has come, no step of either thread, a spurious wake-up or a further
  -- message included, leads away from the end: the rank never grows.
  pub Step-rank : {s t : Exchange} → Step count s t → s.recv_count ≡ count → rank t ≤ rank s
  unfolding on_message
  Step-rank {s} (net_signal e) all = ground (arith, signal-rank s.main)
  Step-rank (wait e lt) all = absurd (omega arith)
  Step-rank (message now e) all = ground arith
  Step-rank (publish now e lt) all = ground arith
  Step-rank (published e le) all = ground arith
  Step-rank (lock e f) all = ground arith
  Step-rank (spurious e) all = ground arith
  Step-rank (relock e f) all = ground arith
  Step-rank (leave e le) all = ground arith
  Step-rank (unlock e) all = ground arith
  Step-rank (net_lock e f) all = ground arith
  Step-rank (net_unlock e) all = ground arith

  -- In every reachable state in which the last message has come: `main` is through, or a step other
  -- than a spurious wake-up is possible that lowers the rank; and no step, a spurious wake-up or a
  -- further message included, raises it.
  pub wait_ends :
      {sends receipts : List ℕ} {s : Exchange}
      → Reach count (init count sends receipts) s
      → s.recv_count ≡ count
      → ((s.main ≡ finished)
          ⊎ ((t : Exchange) × (st : Step count s t) × IsDeliberate st × (rank t < rank s)))
        × ((t : Exchange) → Step count s t → rank t ≤ rank s)
  unfolding Descends
  wait_ends {sends} {receipts} {s} r all =
      (descends s (Reach-Inv r (init-Inv sends receipts)) all s.main refl, λ t st. Step-rank st all)
