-- ===== src/Fairness/Runs.antt =====
-- process_fairness.c and ipc_pipe_latency.c as a step relation: the parent, its children, and the
-- pipe of each. `procs` is NUM_PROCS, which is 10.
pub mod Slots
pub mod Agreement
pub mod Progress
use microkernel_benchmark.Prelude.{
  ℕ, ◌+◌, ◌^◌, ◌<◌, ◌≤◌, ◌≡◌, ◌≢◌, ◌⊎◌, Option, none, some, List, [], ◌∷◌, ◌++◌, All, get_elem?,
  set, take, drop,
}
use microkernel_benchmark.CString.{Bytes, decimal}
use microkernel_benchmark.Fairness.{read_count, statistics, Report}

-- A child, from its fork on. `written` is what it has written, if it has.
pub data Child : Type 0 where
  counting : Child
  writing : (counter : ℕ) → Child
  closing : (written : Option ℕ) → Child
  ended : (written : Option ℕ) → Child
  reaped : (written : Option ℕ) → Child

-- What stands at one index of the arrays: the child, its pipe, and counts[i] if it was set.
pub record Slot : Type 0 where
  pub child : Child
  pub content : Bytes
  pub count : Option ℕ

pub data Parent : Type 0 where
  piping : (i : ℕ) → Parent
  forking : (i : ℕ) → Parent
  closing : (i : ℕ) → Parent
  waiting : (i : ℕ) → Parent
  reading : (i : ℕ) → Parent
  returned : Parent
  failed : Parent

pub record State : Type 0 where
  pub parent : Parent
  pub slots : List Slot
  pub closed : ℕ  -- how many of its write ends the parent has closed
  pub printed : Option Report

abbrev pub init : State
init = record { parent = piping 0; slots = []; closed = 0; printed = none }

abbrev pub forked : Slot
forked = record { child = counting; content = []; count = none }

-- A child holds the write end of its own pipe and of those that were made before it was forked,
-- which it does not close: until it ends it may write to them, as the kernel sees it.
abbrev pub IsGone : Slot → Type 0
IsGone x = (o : Option ℕ) × ((x.child ≡ ended o) ⊎ (x.child ≡ reaped o))

abbrev pub IsReaped : Slot → Type 0
IsReaped x = (o : Option ℕ) × (x.child ≡ reaped o)

-- The array counts, with 0 where it was not set.
abbrev pub count_of : Option ℕ → ℕ
count_of none = 0
count_of (some c) = c

abbrev pub counts : List Slot → List ℕ
counts [] = []
counts (x ∷ xs) = count_of x.count ∷ counts xs

-- counts[i] from what the parent reads; `read` takes 63 bytes at most.
abbrev pub set_count : Slot → Slot
set_count x = record x {
  content = drop 63 x.content;
  count = some (read_count (take 63 x.content));
}

module _ (procs : ℕ) where
  -- A read waits while the pipe is empty and a write end of it is open, in a child or in the parent,
  -- and finds the end when none is. A read of an open pipe does not
  -- fail, and a counter, which has 20 digits at most, is written at once.
  pub data Step (s : State) : State → Type 0 where
    pipe_made : {i : ℕ} → s.parent ≡ piping i → i < procs → Step s (record s { parent = forking i })
    pipe_refused : {i : ℕ} → s.parent ≡ piping i → i < procs → Step s (record s { parent = failed })
    child_forked :
        {i : ℕ}
        → s.parent ≡ forking i
        → Step s (record s { parent = piping (i + 1); slots = s.slots ++ forked ∷ [] })
    fork_refused : {i : ℕ} → s.parent ≡ forking i → Step s (record s { parent = failed })
    all_forked :
        {i : ℕ} → s.parent ≡ piping i → procs ≤ i → Step s (record s { parent = Parent.closing 0 })
    end_closed :
        {i : ℕ}
        → s.parent ≡ Parent.closing i
        → i < procs
        → Step s (record s { parent = Parent.closing (i + 1); closed = i + 1 })
    all_closed :
        {i : ℕ} → s.parent ≡ Parent.closing i → procs ≤ i → Step s (record s { parent = waiting 0 })
    child_waited :
        {i : ℕ} (j : ℕ) (x : Slot) (o : Option ℕ)
        → s.parent ≡ waiting i
        → i < procs
        → get_elem? s.slots j ≡ some x
        → x.child ≡ ended o
        → Step s (record s {
          parent = waiting (i + 1);
          slots = set s.slots j (record x { child = reaped o });
        })
    no_child :
        {i : ℕ}
        → s.parent ≡ waiting i
        → i < procs
        → All IsReaped s.slots
        → Step s (record s { parent = waiting (i + 1) })
    all_waited :
        {i : ℕ} → s.parent ≡ waiting i → procs ≤ i → Step s (record s { parent = reading 0 })
    count_read :
        {i : ℕ} (x : Slot)
        → s.parent ≡ reading i
        → i < procs
        → get_elem? s.slots i ≡ some x
        → (x.content ≢ []) ⊎ ((i < s.closed) × All IsGone (drop i s.slots))
        → Step s (record s { parent = reading (i + 1); slots = set s.slots i (set_count x) })
    report_printed :
        {i : ℕ} (c : ℕ) (cs : List ℕ)
        → s.parent ≡ reading i
        → procs ≤ i
        → counts s.slots ≡ c ∷ cs
        → Step s (record s {
          parent = returned;
          printed = some (record { counts = c ∷ cs; figures = statistics c cs });
        })
    time_over :
        (j counter : ℕ) (x : Slot)
        → get_elem? s.slots j ≡ some x
        → x.child ≡ counting
        → counter < 2 ^ 64
        → Step s (record s { slots = set s.slots j (record x { child = writing counter }) })
    clock_fails :
        (j : ℕ) (x : Slot)
        → get_elem? s.slots j ≡ some x
        → x.child ≡ counting
        → Step s (record s { slots = set s.slots j (record x { child = ended none }) })
    counter_written :
        (j counter : ℕ) (x : Slot)
        → get_elem? s.slots j ≡ some x
        → x.child ≡ writing counter
        → Step s (record s {
          slots = set s.slots j (record x {
            child = Child.closing (some counter);
            content = x.content ++ decimal counter;
          });
        })
    write_fails :
        (j counter : ℕ) (x : Slot)
        → get_elem? s.slots j ≡ some x
        → x.child ≡ writing counter
        → Step s (record s { slots = set s.slots j (record x { child = Child.closing none }) })
    child_ends :
        (j : ℕ) (x : Slot) (o : Option ℕ)
        → get_elem? s.slots j ≡ some x
        → x.child ≡ Child.closing o
        → Step s (record s { slots = set s.slots j (record x { child = ended o }) })

  pub data Reach : State → Type 0 where
    here : Reach init
    next : {s t : State} → Reach s → Step s t → Reach t
