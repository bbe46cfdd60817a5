-- ===== src/Priority/Linux/Inversion.antt =====
-- linux_priority_inversion.c: the medium thread keeps the low one from releasing the mutex that the
-- high one waits for.
use microkernel_benchmark.Prelude.{
  ℕ, Option, some, subst, ap, ◌-◌, ◌/◌, ◌+◌, ◌≤◌, ◌≡◌, ◌⊎◌, inl, inr, arith, Bool,
}
use microkernel_benchmark.Prelude.Int.{ℤ, ◌≤ℤ◌, -ℤ_parts}
use microkernel_benchmark.Policy.{Policy}
use microkernel_benchmark.Priority.{waited_ms, low_owns, med_ns}
use microkernel_benchmark.Priority.Setup.{linux_threads}
use microkernel_benchmark.Priority.Dispatch.{low, med, Allowed}
use microkernel_benchmark.Priority.Linux.{
  Med, High, holding, measured, State, Step, main_posts_low, main_posts_med, main_posts_high,
  main_joins, low_starts, low_locks, low_reads, low_unlocks, med_starts, med_reads, med_finishes,
  high_starts, high_reads, high_locks, high_measures, high_unlocks,
}
use microkernel_benchmark.Priority.Linux.Dispatch.{
  mover, MedReady, Ready, blocks, prio, Run, here, next,
}

med_over_low :
    (prio_max : ℤ) (policy : Policy) (b : Bool)
    → prio prio_max policy b med ≤ℤ prio prio_max policy b low
    → ⊥
unfolding linux_threads
med_over_low prio_max policy b h = omega (arith, -ℤ_parts)

-- The medium thread wants the processor, at the time `clock`, and has not spun before `since`.
abbrev pub Contends : ℕ → Med → ℕ → Type 0
Contends since Med.started clock = since ≤ clock
Contends since (Med.spinning start) clock = since ≤ start
Contends since _ clock = ⊥

abbrev Inverted : ℕ → ℕ → State → Type 0
Inverted since t0 s =
    (s.mutex ≡ low_owns) × (s.high ≡ High.locking t0) × Contends since s.med s.clock

-- What the high thread does when `over` has passed, with what has been printed.
abbrev HighAfter : ℕ → ℕ → High → Option ℕ → Type 0
HighAfter over t0 (High.locking t) p = t ≡ t0
HighAfter over t0 (holding t) p = t ≡ t0
HighAfter over t0 (measured t t1) p = (t ≡ t0) × (over ≤ t1)
HighAfter over t0 High.finished p = (t1 : ℕ) × (over ≤ t1) × (p ≡ some (waited_ms t0 t1))
HighAfter over t0 _ p = ⊥

abbrev Over : ℕ → ℕ → State → Type 0
Over since t0 s =
    (s.med ≡ Med.finished)
    × (since + med_ns ≤ s.clock)
    × HighAfter (since + med_ns) t0 s.high s.printed

Over-Step : (since t0 : ℕ) {s t : State} → Step s t → Over since t0 s → Over since t0 t
Over-Step since t0 (main_posts_low e) v = ground arith
Over-Step since t0 (main_posts_med e) v = ground arith
Over-Step since t0 (main_posts_high e) v = ground arith
Over-Step since t0 (main_joins e f) v = ground arith
Over-Step since t0 (low_starts e f) v = ground arith
Over-Step since t0 (low_locks e f) v = ground arith
Over-Step since t0 (low_reads e f) v = ground arith
Over-Step since t0 (low_unlocks e f g) v = ground arith
Over-Step since t0 (med_starts e f) v = ground arith
Over-Step since t0 (med_reads e f) v = ground arith
Over-Step since t0 (med_finishes e f g) v = ground arith
Over-Step since t0 (high_starts e f) v = ground arith
Over-Step since t0 (high_reads e f) v = ground arith
Over-Step since t0 (high_locks e f) v = ground arith
Over-Step since t0 (high_measures e f) v = ground arith
Over-Step since t0 {s} (high_unlocks {t0 = t} {t1 = t1} e) (m, le, h) =
    let (same, later) = subst (λ k. HighAfter (since + med_ns) t0 k s.printed) e h in
    (m, le, (t1, later, ap (λ k. some (waited_ms k t1)) same))

Contends-ready : (since : ℕ) (m : Med) (clock posts : ℕ) → Contends since m clock → MedReady m posts
Contends-ready since Med.started clock posts c = tt
Contends-ready since (Med.spinning start) clock posts c = tt
Contends-ready since Med.waiting clock posts c = absurd c
Contends-ready since Med.finished clock posts c = absurd c

-- The low thread holds the mutex and does not get the processor: it cannot release it.
Inverted-Step :
    (prio_max : ℤ) (policy : Policy) (since t0 : ℕ) {s t : State} (st : Step s t)
    → Allowed (prio prio_max policy (blocks s.high s.mutex)) (Ready s) (mover st)
    → Inverted since t0 s
    → Inverted since t0 t ⊎ Over since t0 t
Inverted-Step p o since t0 (main_posts_low e) a v = inl (ground arith)
Inverted-Step p o since t0 (main_posts_med e) a v = inl (ground arith)
Inverted-Step p o since t0 (main_posts_high e) a v = inl (ground arith)
Inverted-Step p o since t0 (main_joins e f) a v = inl (ground arith)
Inverted-Step p o since t0 (low_starts e f) a v = inl (ground arith)
Inverted-Step p o since t0 (low_locks e f) a v = absurd (ground arith)
Inverted-Step p o since t0 {s} (low_reads e f) a v = inl (ground arith)
Inverted-Step p o since t0 {s} (low_unlocks e f g) a v = absurd (
    med_over_low p o (blocks s.high s.mutex)
      (a.unbeaten med (Contends-ready since s.med s.clock s.med_start v.2)))
Inverted-Step p o since t0 (med_starts e f) a v = absurd (ground arith)
Inverted-Step p o since t0 (med_reads e f) a v = inl (ground arith)
Inverted-Step p o since t0 (med_finishes e f g) a v = inr (ground arith)
Inverted-Step p o since t0 (high_starts e f) a v = absurd (ground arith)
Inverted-Step p o since t0 (high_reads e f) a v = absurd (ground arith)
Inverted-Step p o since t0 (high_locks e f) a v = absurd (ground arith)
Inverted-Step p o since t0 (high_measures e f) a v = absurd (ground arith)
Inverted-Step p o since t0 (high_unlocks e) a v = absurd (ground arith)

phase :
    {prio_max : ℤ} {policy : Policy} (since t0 : ℕ) {s t : State}
    → Inverted since t0 s
    → Run prio_max policy s t
    → Inverted since t0 t ⊎ Over since t0 t
phase since t0 v here = inl v
phase {prio_max} {policy} since t0 v (next r running st a) = elim (phase since t0 v r) [
  | inl w ↦ Inverted-Step prio_max policy since t0 st a w
  | inr w ↦ inr (Over-Step since t0 st w)
]

printed_bound : (over t0 t1 : ℕ) → over ≤ t1 → (over - t0) / 1_000_000 ≤ waited_ms t0 t1
unfolding waited_ms
printed_bound over t0 t1 h = omega arith

-- For all priorities that the program may ask for: if the high thread waits for the mutex since `t0`
-- while the low one has it and the medium one is past its semaphore, and does not spin from a time
-- before `since`, then in every run that the scheduler allows, when the high thread is through, the
-- medium one is through as well, and the figure that the high thread has printed is at least the
-- number of milliseconds from `t0` to 200 ms behind `since`.
pub inversion :
    {prio_max : ℤ} {policy : Policy} {s t : State} (since : ℕ) {t0 : ℕ}
    → s.mutex ≡ low_owns
    → s.high ≡ High.locking t0
    → Contends since s.med s.clock
    → Run prio_max policy s t
    → t.high ≡ High.finished
    → (t.med ≡ Med.finished)
      × (w : ℕ) × (t.printed ≡ some w)
      × ((since + med_ns - t0) / 1_000_000 ≤ w)
inversion {s = s} {t = t} since {t0 = t0} em eh c r e = elim (phase since t0 (em, eh, c) r) [
  | inl w ↦ absurd (ground arith)
  | inr (m, le, h) ↦
      let (t1, later, p) = subst (λ k. HighAfter (since + med_ns) t0 k t.printed) e h in
      (m, waited_ms t0 t1, p, printed_bound (since + med_ns) t0 t1 later)
]
