-- ===== src/Ipc/SharedQueue/Teardown.antt =====
-- The end of ipc_latency.c: the parent kills the child, cancels and joins the load threads, and
-- removes the queue. A cancellation that is deferred, as it is by default, ends a thread at its
-- next cancellation point, and the loop of `load_thread_func` has none.
pub mod Hanging
use microkernel_benchmark.Prelude.{
  ℕ, ◌+◌, ◌%◌, ◌^◌, ◌<◌, ◌≤◌, ◌≡◌, ◌≢◌, List, [], ◌∷◌, get_elem?, set, some, Bool, true, false,
}
use microkernel_benchmark.Ipc.SharedQueue.{num_load_threads}

pub data CancelType : Type 0 where
  deferred asynchronous : CancelType

-- A thread of `load_thread_func`.
pub data Load : Type 0 where
  counting : (counter : ℕ) → Load
  cancelled : (counter : ℕ) → Load  -- the request is pending, and it counts on
  ended : Load

-- Where the parent stands behind the report.
pub data Tail : Type 0 where
  killing : Tail
  cancelling : (i : ℕ) → Tail
  joining : (i : ℕ) → Tail
  unlinking : Tail
  returned : Tail

pub record State : Type 0 where
  pub tail : Tail
  pub loads : List Load
  pub child_killed : Bool
  pub closed : Bool
  pub unlinked : Bool

abbrev pub init : ℕ → ℕ → ℕ → State
init a b c = record {
  tail = killing;
  loads = counting a ∷ counting b ∷ counting c ∷ [];
  child_killed = false;
  closed = false;
  unlinked = false;
}

module _ (cancel_type : CancelType) where
  pub data Step (s : State) : State → Type 0 where
    kill : s.tail ≡ killing → Step s (record s { tail = cancelling 0; child_killed = true })
    cancel :
        (i k : ℕ)
        → s.tail ≡ cancelling i
        → i < num_load_threads
        → get_elem? s.loads i ≡ some (counting k)
        → Step s (record s { tail = joining i; loads = set s.loads i (cancelled k) })
    join :
        (i : ℕ)
        → s.tail ≡ joining i
        → get_elem? s.loads i ≡ some ended
        → Step s (record s { tail = cancelling (i + 1) })
    close :
        (i : ℕ)
        → s.tail ≡ cancelling i
        → num_load_threads ≤ i
        → Step s (record s { tail = unlinking; closed = true })
    unlink : s.tail ≡ unlinking → Step s (record s { tail = returned; unlinked = true })
    count :
        (i k : ℕ)
        → get_elem? s.loads i ≡ some (counting k)
        → Step s (record s { loads = set s.loads i (counting ((k + 1) % 2 ^ 64)) })
    count_on :
        (i k : ℕ)
        → get_elem? s.loads i ≡ some (cancelled k)
        → Step s (record s { loads = set s.loads i (cancelled ((k + 1) % 2 ^ 64)) })
    act :
        (i k : ℕ)
        → cancel_type ≡ asynchronous
        → get_elem? s.loads i ≡ some (cancelled k)
        → Step s (record s { loads = set s.loads i ended })

  -- When the parent returns, its threads end with it.
  pub data Reach (s : State) : State → Type 0 where
    here : Reach s s
    next : {t u : State} → Reach s t → t.tail ≢ returned → Step t u → Reach s u
