-- ===== src/ProcessSwitch.antt =====
-- scheduling/process/process_ctx_switch.c: a parent and an echoing child send one byte to and fro
-- over two pipes. Each closes the ends that it does not use before it reads or writes, so an end is
-- open in one process only. A process that ends closes its ends of both pipes: then the other one's read of
-- an empty pipe finds the end (and is a failure), and its write kills it by SIGPIPE.
pub mod Echo
pub mod Progress
mod Tests
use microkernel_benchmark.Prelude.{
  ℕ, ◌+◌, ◌<◌, ◌≤◌, ◌≡◌, List, [], ◌∷◌, ◌++◌, Bool, true, false, ◌&&◌, ◌⊎◌,
}
use microkernel_benchmark.Prelude.Int.{ℤ, pos, negsuc, ◌+ℤ◌, ◌-ℤ◌, ◌*ℤ◌}
use microkernel_benchmark.Prelude.Program.{Program, pure, require, ◌>>=◌, ◌>>◌}
use microkernel_benchmark.CString.{Bytes, atoi}
use microkernel_benchmark.Timespec.{Timespec, nsec_per_sec}

unfoldable pub diff_nsec : Timespec → Timespec → ℤ
diff_nsec start end =
    (pos end.tv_sec -ℤ pos start.tv_sec) *ℤ pos nsec_per_sec
    +ℤ (pos end.tv_nsec -ℤ pos start.tv_nsec)

-- `main` up to the fork: the number of rounds, if the pipes and the fork are granted.
unfoldable pub start : Bool → Bool → Bool → List Bytes → Program ℤ
unfolding atoi
start p2c c2p forked args = do
  require (p2c && c2p) "pipe"
  require forked "fork"
  pure (elim args [ [] ↦ pos 100_000 | arg ∷ _ ↦ atoi arg ])

-- Where the parent stands; `i` counts its completed rounds.
pub data Parent : Type 0 where
  writing : (i : ℕ) → Parent
  reading : (i : ℕ) → Parent
  waiting : (i : ℕ) → Parent  -- in `wait`, with the figures printed
  returned : (i : ℕ) → Parent
  write_failed : (i : ℕ) → Parent  -- has returned 1, or was killed by SIGPIPE
  read_failed : (i : ℕ) → Parent

-- Where the child stands; `j` counts its completed rounds.
pub data Child : Type 0 where
  reading : (j : ℕ) → Child
  writing : (j : ℕ) → Child
  exited : (j : ℕ) → Child
  failed : (j : ℕ) → Child

pub record State : Type 0 where
  pub p2c : Bytes
  pub c2p : Bytes
  pub parent : Parent
  pub child : Child
  pub parent_buf : ℕ
  pub child_buf : ℕ

-- After the fork; what the child's buffer holds is not determined.
abbrev pub init : ℕ → State
init garbage = record {
  p2c = [];
  c2p = [];
  parent = writing 0;
  child = reading 0;
  parent_buf = 0;
  child_buf = garbage;
}

-- A process that has ended holds no end of a pipe.
abbrev pub parent_gone : Parent → Bool
parent_gone (returned i) = true
parent_gone (write_failed i) = true
parent_gone (read_failed i) = true
parent_gone _ = false

abbrev pub child_gone : Child → Bool
child_gone (exited j) = true
child_gone (failed j) = true
child_gone _ = false

-- `for (int i = 0; i < iterations; i++)` makes no round if the number is negative.
abbrev pub rounds : ℤ → ℕ
rounds (pos n) = n
rounds (negsuc _) = 0

module _ (n : ℕ) where
  -- A call that succeeds or is answered by the end of the other process, with what follows it. One
  -- byte at most is in a pipe, so a write never waits.
  pub data Step (s : State) : State → Type 0 where
    parent_write :
        {i : ℕ}
        → s.parent ≡ Parent.writing i
        → i < n
        → child_gone s.child ≡ false
        → Step s (record s { p2c = s.p2c ++ s.parent_buf ∷ []; parent = Parent.reading i })
    parent_sigpipe :
        {i : ℕ}
        → s.parent ≡ Parent.writing i
        → i < n
        → child_gone s.child ≡ true
        → Step s (record s { parent = write_failed i })
    parent_read :
        {i b : ℕ} {rest : Bytes}
        → s.parent ≡ Parent.reading i
        → s.c2p ≡ b ∷ rest
        → Step s (record s { c2p = rest; parent = Parent.writing (i + 1); parent_buf = b })
    parent_end_of_file :
        {i : ℕ}
        → s.parent ≡ Parent.reading i
        → s.c2p ≡ []
        → child_gone s.child ≡ true
        → Step s (record s { parent = read_failed i })
    parent_report :
        {i : ℕ} → s.parent ≡ Parent.writing i → n ≤ i → Step s (record s { parent = waiting i })
    parent_return :
        {i : ℕ}
        → s.parent ≡ waiting i
        → child_gone s.child ≡ true
        → Step s (record s { parent = returned i })
    child_read :
        {j b : ℕ} {rest : Bytes}
        → s.child ≡ Child.reading j
        → j < n
        → s.p2c ≡ b ∷ rest
        → Step s (record s { p2c = rest; child = Child.writing j; child_buf = b })
    child_end_of_file :
        {j : ℕ}
        → s.child ≡ Child.reading j
        → j < n
        → s.p2c ≡ []
        → parent_gone s.parent ≡ true
        → Step s (record s { child = failed j })
    child_write :
        {j : ℕ}
        → s.child ≡ Child.writing j
        → parent_gone s.parent ≡ false
        → Step s (record s { c2p = s.c2p ++ s.child_buf ∷ []; child = Child.reading (j + 1) })
    child_sigpipe :
        {j : ℕ}
        → s.child ≡ Child.writing j
        → parent_gone s.parent ≡ true
        → Step s (record s { child = failed j })
    child_exit :
        {j : ℕ} → s.child ≡ Child.reading j → n ≤ j → Step s (record s { child = exited j })

  -- A call that fails by itself: the process reports it and ends.
  pub data Fault (s : State) : State → Type 0 where
    parent_write_fails :
        {i : ℕ}
        → s.parent ≡ Parent.writing i
        → i < n
        → Fault s (record s { parent = write_failed i })
    parent_clock_fails :
        {i : ℕ}
        → s.parent ≡ Parent.writing i
        → (i ≡ 0) ⊎ (n ≤ i)
        → Fault s (record s { parent = write_failed i })
    parent_read_fails :
        {i : ℕ} → s.parent ≡ Parent.reading i → Fault s (record s { parent = read_failed i })
    child_read_fails :
        {j : ℕ} → s.child ≡ Child.reading j → j < n → Fault s (record s { child = failed j })
    child_write_fails :
        {j : ℕ} → s.child ≡ Child.writing j → Fault s (record s { child = failed j })

  pub data Reach (s : State) : State → Type 0 where
    here : Reach s s
    next : {t u : State} → Reach s t → Step t u → Reach s u
    fault : {t u : State} → Reach s t → Fault t u → Reach s u
