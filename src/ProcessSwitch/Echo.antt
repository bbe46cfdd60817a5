-- ===== src/ProcessSwitch/Echo.antt =====
-- What holds in every state of process_ctx_switch.c, whatever calls fail.
use microkernel_benchmark.Prelude.{
  ℕ, ◌+◌, ◌<◌, ◌≤◌, ◌≡◌, arith, false, [], ◌∷◌, ◌++◌, length, length-append,
}
use microkernel_benchmark.CString.{Bytes}
use microkernel_benchmark.ProcessSwitch.{
  Parent, waiting, returned, write_failed, read_failed, Child, exited, failed, State, init,
  child_gone, Step, parent_write, parent_sigpipe, parent_read, parent_end_of_file, parent_report,
  parent_return, child_read, child_end_of_file, child_write, child_sigpipe, child_exit, Fault,
  parent_write_fails, parent_clock_fails, parent_read_fails, child_read_fails, child_write_fails,
  Reach, here, next, fault,
}

abbrev pub parent_rounds : Parent → ℕ
parent_rounds (Parent.writing i) = i
parent_rounds (Parent.reading i) = i
parent_rounds (waiting i) = i
parent_rounds (returned i) = i
parent_rounds (write_failed i) = i
parent_rounds (read_failed i) = i

abbrev pub child_rounds : Child → ℕ
child_rounds (Child.reading j) = j
child_rounds (Child.writing j) = j
child_rounds (exited j) = j
child_rounds (failed j) = j

-- The byte that the parent has not got back, and the one that the child holds.
abbrev pub awaited : Parent → ℕ
awaited (Parent.reading i) = 1
awaited (read_failed i) = 1
awaited _ = 0

abbrev pub held : Child → ℕ
held (Child.writing j) = 1
held _ = 0

module _ (n : ℕ) where
  abbrev pub ParentPlace : Parent → Type 0
  ParentPlace (Parent.writing i) = i ≤ n
  ParentPlace (Parent.reading i) = i < n
  ParentPlace (waiting i) = i ≡ n
  ParentPlace (returned i) = i ≡ n
  ParentPlace (write_failed i) = i ≤ n
  ParentPlace (read_failed i) = i < n

  abbrev pub ChildPlace : Child → Type 0
  ChildPlace (Child.reading j) = j ≤ n
  ChildPlace (Child.writing j) = j < n
  ChildPlace (exited j) = j ≡ n
  ChildPlace (failed j) = j < n

  pub record Inv (s : State) : Type 0 where
    pub flight : length s.p2c + held s.child + length s.c2p ≤ awaited s.parent
    pub kept :
        child_gone s.child ≡ false → length s.p2c + held s.child + length s.c2p ≡ awaited s.parent
    pub counted : child_rounds s.child ≡ parent_rounds s.parent + length s.c2p
    pub parent_place : ParentPlace s.parent
    pub child_place : ChildPlace s.child

  length-push : (q : Bytes) (b : ℕ) → length (q ++ b ∷ []) ≡ length q + 1
  length-push q b = length-append q (b ∷ [])

  Step-Inv : {s t : State} → Step n s t → Inv s → Inv t
  Step-Inv {s} (parent_write e lt live) v = ground (arith, length-push s.p2c s.parent_buf)
  Step-Inv (parent_sigpipe e lt gone) v = ground arith
  Step-Inv (parent_read e q) v = ground arith
  Step-Inv (parent_end_of_file e q gone) v = ground arith
  Step-Inv (parent_report e le) v = ground arith
  Step-Inv (parent_return e gone) v = ground arith
  Step-Inv (child_read e lt q) v = ground arith
  Step-Inv (child_end_of_file e lt q gone) v = ground arith
  Step-Inv {s} (child_write e live) v = ground (arith, length-push s.c2p s.child_buf)
  Step-Inv (child_sigpipe e gone) v = ground arith
  Step-Inv (child_exit e le) v = ground arith

  Fault-Inv : {s t : State} → Fault n s t → Inv s → Inv t
  Fault-Inv (parent_write_fails e lt) v = ground arith
  Fault-Inv (parent_clock_fails e h) v = ground arith
  Fault-Inv (parent_read_fails e) v = ground arith
  Fault-Inv (child_read_fails e lt) v = ground arith
  Fault-Inv (child_write_fails e) v = ground arith

  init-Inv : (garbage : ℕ) → Inv (init garbage)
  init-Inv garbage = ground arith

  pub Reach-Inv : {garbage : ℕ} {s : State} → Reach n (init garbage) s → Inv s
  Reach-Inv {garbage} here = init-Inv garbage
  Reach-Inv (next r st) = Step-Inv st (Reach-Inv r)
  Reach-Inv (fault r f) = Fault-Inv f (Reach-Inv r)
