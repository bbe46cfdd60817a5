-- ===== src/Mosquitto/Kills.antt =====
-- Which processes the mosquitto programs signal when they stop.
use microkernel_benchmark.Prelude.{
  All, Any, ℕ, zero, suc, ◌≡◌, ◌<◌, ◌↔◌, inl, inr, refl, arith, ap, List, [], ◌∷◌,
}
use microkernel_benchmark.Prelude.Int.{negsuc, pos_part}
use microkernel_benchmark.Mosquitto.Processes.{Fork, refused, child_is, pid_of, Call, kill, waitpid}
use microkernel_benchmark.Mosquitto.Burst
use microkernel_benchmark.Mosquitto.CpuLoad.{start_load, stop_load}

-- The process that a call is about; 0 stands for 0 and for the negative numbers, which name groups.
abbrev pub target : Call → ℕ
target (kill pid) = pos_part pid
target (waitpid pid) = pos_part pid

-- kill(-1, SIGTERM) signals every process that the user may signal.
abbrev pub KillsAll : Call → Type 0
KillsAll c = c ≡ kill (negsuc 0)

load_kills :
    (forks : List Fork) → Any (λ f. f ≡ refused) forks → Any KillsAll (stop_load (start_load forks))
unfolding start_load stop_load
load_kills [] a = elim a [ ]
load_kills (f ∷ forks) (inl e) = inl (ap (λ g. kill (pid_of g)) e)
load_kills (f ∷ forks) (inr a) = inr (inr (load_kills forks a))

load_spares :
    (forks : List Fork) → Any KillsAll (stop_load (start_load forks)) → Any (λ f. f ≡ refused) forks
unfolding start_load stop_load
load_spares [] a = elim a [ ]
load_spares (refused ∷ forks) a = inl refl
load_spares (child_is pid ∷ forks) (inl e) = absurd (cc)
load_spares (child_is pid ∷ forks) (inr (inl e)) = absurd (cc)
load_spares (child_is pid ∷ forks) (inr (inr a)) = inr (load_spares forks a)

-- cpu_load_pubsub_test.c: `stop_load` signals every process of the user exactly when one of the
-- forks in `start_load` was refused, since the -1 that fork returns is stored and used as a
-- process.
pub stop_load-KillsAll :
    (forks : List Fork) → Any (λ f. f ≡ refused) forks ↔ Any KillsAll (stop_load (start_load forks))
stop_load-KillsAll forks = (load_kills forks, load_spares forks)

-- `stop_broker` looks first: whatever the fork of the broker returned, it signals and awaits the
-- broker's own process or nothing.
pub stop_broker-target :
    (f : Fork)
    → All
        (λ c. (0 < target c) × (f ≡ child_is (target c)))
        (Burst.stop_broker (Burst.start_broker f))
unfolding Burst.stop_broker Burst.start_broker
stop_broker-target refused = tt
stop_broker-target (child_is zero) = tt
stop_broker-target (child_is (suc n)) = ground arith
