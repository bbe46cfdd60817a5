-- ===== src/Ipc/SharedQueue/Teardown/Hanging.antt =====
-- The end of ipc_latency.c with its load threads, as cancellation is by default.
use microkernel_benchmark.Prelude.{
  ℕ, ◌≡◌, ◌≢◌, refl, ◌∙◌, arith, All, get_elem?-All, set-All, List, [], ◌∷◌, length, length-set,
  set, false,
}
use microkernel_benchmark.Ipc.SharedQueue.Teardown.{
  deferred, Load, counting, cancelled, ended, Tail, killing, cancelling, joining, unlinking,
  returned, State, init, Step, kill, cancel, join, close, unlink, count, count_on, act, Reach, here,
  next,
}

-- The parent is at the first load thread or before it.
abbrev pub Early : Tail → Type 0
Early killing = Unit
Early (cancelling i) = i ≡ 0
Early (joining i) = i ≡ 0
Early unlinking = ⊥
Early returned = ⊥

abbrev Runs : Load → Type 0
Runs t = t ≢ ended

record Inv (s : State) : Type 0 where
  early : Early s.tail
  running : All Runs s.loads
  three : length s.loads ≡ 3
  open_ : s.closed ≡ false
  linked : s.unlinked ≡ false

-- A load thread that counts leaves the rest as it is.
counted :
    (s : State) (i : ℕ) (t : Load) → Runs t → Inv s → Inv (record s { loads = set s.loads i t })
counted s i t r v = record {
  early = v.early;
  running = set-All Runs s.loads i t v.running r;
  three = length-set s.loads i t ∙ v.three;
  open_ = v.open_;
  linked = v.linked;
}

Step-Inv : {s t : State} → Step deferred s t → Inv s → Inv t
Step-Inv {s} (kill e) v = ground arith
Step-Inv {s} (cancel i k e lt x) v = record {
  early = ground arith;
  running = set-All Runs s.loads i (cancelled k) v.running (λ e. ground arith);
  three = length-set s.loads i (cancelled k) ∙ v.three;
  open_ = v.open_;
  linked = v.linked;
}
Step-Inv {s} (join i e x) v = absurd (get_elem?-All Runs s.loads i v.running x refl)
Step-Inv {s} (close i e ge) v = absurd (ground arith)
Step-Inv {s} (unlink e) v = absurd (ground arith)
Step-Inv {s} (count i k x) v = counted s i _ (λ e. ground arith) v
Step-Inv {s} (count_on i k x) v = counted s i _ (λ e. ground arith) v
Step-Inv {s} (act i k e x) v = absurd (ground arith)

Reach-Inv : {a b c : ℕ} {s : State} → Reach deferred (init a b c) s → Inv s
Reach-Inv here = ground arith
Reach-Inv (next r alive st) = Step-Inv st (Reach-Inv r)

counts : (s : State) (ts : List Load) → s.loads ≡ ts → Inv s → (t : State) × Step deferred s t
counts s [] e v = absurd (ground arith)
counts s (counting k ∷ ts) e v = (_, count 0 k (ground arith))
counts s (cancelled k ∷ ts) e v = (_, count_on 0 k (ground arith))
counts s (ended ∷ ts) e v = absurd (ground arith)

-- With cancellation deferred, in every reachable state: the parent has not got past the first load
-- thread, the queue is neither closed nor removed, and the program has not ended but has a step to
-- take.
pub never_ends :
    {a b c : ℕ} {s : State}
    → Reach deferred (init a b c) s
    → Early s.tail × (s.closed ≡ false) × (s.unlinked ≡ false) × (t : State) × Step deferred s t
never_ends {s = s} r =
    let v = Reach-Inv r in
    let (t, st) = counts s s.loads refl v in (v.early, v.open_, v.linked, t, st)
