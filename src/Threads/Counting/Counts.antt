-- ===== src/Threads/Counting/Counts.antt =====
-- The counts of thread_fairness.c: when they are settled, and what the threads have left to do.
use native.Mathlib.Decide.{ℕ_discrete}
use microkernel_benchmark.Prelude.{
  ℕ, zero, suc, ◌+◌, ◌%◌, ◌^◌, ◌<◌, ◌≡◌, ◌≢◌, refl, sym, ap, ◌∙◌, arith, List, [], ◌∷◌, length,
  get_elem?, get_elem?-set_ne, set, some,
}
use microkernel_benchmark.Threads.Counting.{Thread, testing, counting, exited, iterations, report}

-- What a thread ends with that makes at most the increment that it has begun.
abbrev pub settled : Thread → ℕ
settled (testing k) = k
settled (counting k) = (k + 1) % 2 ^ 64
settled (exited k) = k

abbrev pub settled_report : ℕ → List Thread → List (ℕ × ℕ)
settled_report i [] = []
settled_report i (t ∷ ts) = (i, settled t) ∷ settled_report (i + 1) ts

pub settled_report-set :
    (i j : ℕ) (ts : List Thread) {t : Thread} (u : Thread)
    → get_elem? ts i ≡ some t
    → settled u ≡ settled t
    → settled_report j (set ts i u) ≡ settled_report j ts
settled_report-set i j [] u e same = refl
settled_report-set zero j (x ∷ ts) {t} u e same =
    let k : x ≡ t = ground arith in
    ap (λ a. (j, a) ∷ settled_report (j + 1) ts) (same ∙ ap settled (sym k))
settled_report-set (suc i) j (x ∷ ts) u e same =
    ap (λ r. (j, settled x) ∷ r) (settled_report-set i (j + 1) ts u e same)

-- The threads before number `i` have exited.
abbrev pub Exited : ℕ → List Thread → Type 0
Exited i ts = (j : ℕ) → j < i → (k : ℕ) × (get_elem? ts j ≡ some (exited k))

pub report-settled :
    (j : ℕ) (ts : List Thread) → Exited (length ts) ts → report j ts ≡ settled_report j ts
unfolding report
report-settled j [] f = refl
report-settled j (t ∷ ts) f =
    let (k, e) = f 0 (omega arith) in
    let same : iterations t ≡ settled t = ground arith in
    let rest = report-settled (j + 1) ts (λ i lt. f (suc i) (omega arith)) in
    ap (λ m. (j, m) ∷ report (j + 1) ts) same ∙ ap (λ r. (j, settled t) ∷ r) rest

pub Exited-set :
    (i j : ℕ) (ts : List Thread) {t : Thread} (u : Thread)
    → get_elem? ts j ≡ some t
    → ((k : ℕ) → t ≢ exited k)
    → Exited i ts
    → Exited i (set ts j u)
Exited-set i j ts u e going f m lt = elim (ℕ_discrete j m) [
  | yes same ↦ let (k, found) = f m lt in absurd (going k (ground arith))
  | no ne ↦ let (k, found) = f m lt in (k, get_elem?-set_ne ts u ne ∙ found)
]

-- The steps that a thread has left when the flag is set.
abbrev pub weight : Thread → ℕ
weight (testing k) = 1
weight (counting k) = 2
weight (exited k) = 0
