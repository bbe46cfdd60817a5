-- ===== src/Ipc/TwoQueues.antt =====
-- ipc/ipc_mq_latency.c: a parent and an echoing child with a queue for each direction. A message is
-- the 64 bytes of a buffer.
pub mod Behaviour
pub mod Progress
pub mod Teardown
use microkernel_benchmark.Prelude.{
  ℕ, zero, suc, ◌+◌, ◌-◌, ◌<◌, ◌≤◌, ◌≡◌, Option, some, List, [], ◌∷◌, ◌++◌, String, Bool, ◌&&◌,
  if◌then◌else◌, replicate,
}
use microkernel_benchmark.Prelude.Int.{ℤ, pos, ltb_ℤ, ◌-ℤ◌}
use microkernel_benchmark.Prelude.Program.{Program, pure, require, warn_unless, ◌>>=◌, ◌>>◌}
use microkernel_benchmark.Timespec
use microkernel_benchmark.Timespec.{Timespec}
use microkernel_benchmark.Policy.{
  Platform, Policy, fifo, rr, sporadic, other, on_qnx, is_sporadic, parse_policy, Param,
  measuring_param, Host,
}
use microkernel_benchmark.Ipc.{MessageQueue, iterations, msg_size}

unfoldable pub timespec_diff_ns : Timespec → Timespec → ℤ
timespec_diff_ns = Timespec.timespec_diff_ns

unfoldable pub parse_sched_policy : Platform → String → Program Policy
unfolding parse_policy
parse_sched_policy platform =
    parse_policy platform "SCHED_SPORADIC not supported on Linux." "Unknown scheduling policy: "

-- `main` up to the fork: the flags say whether the two mq_open and the fork succeeded.
unfoldable pub start : Host → Bool → Bool → Bool → List String → Program Policy
unfolding parse_sched_policy
start host opened_ptoc opened_ctop forked args = do
  policy ← elim args [ [] ↦ pure fifo | arg ∷ _ ↦ parse_sched_policy host.platform arg ]
  require opened_ptoc "mq_open /mq_ptoc"
  require opened_ctop "mq_open /mq_ctop"
  require forked "fork"
  pure policy

-- What the two processes ask of the scheduler; neither looks at the answer.
unfoldable pub child_param : Host → Policy → Param
unfolding ◌-ℤ◌
child_param host policy = measuring_param host.platform policy (host.prio_max policy -ℤ pos 10)

unfoldable pub parent_param : Host → Policy → Param
parent_param host policy = measuring_param host.platform policy (host.prio_max policy)

-- 63 times 'M' and a NUL.
abbrev pub payload : List ℕ
payload = replicate (msg_size - 1) b'M' ++ 0 ∷ []

unfoldable pub policy_str : Policy → String
policy_str fifo = "FIFO"
policy_str rr = "RR"
policy_str sporadic = "SPORADIC"
policy_str other = "SPORADIC"

-- Where the two processes stand in their loops; `i` counts their rounds.
pub data Parent : Type 0 where
  sending : (i : ℕ) → Parent
  receiving : (i : ℕ) (start : Timespec) → Parent
  reporting : (i : ℕ) → Parent

pub data Child : Type 0 where
  waiting : (i : ℕ) → Child
  replying : (i : ℕ) → Child
  exited : (i : ℕ) → Child

module _ (mq : MessageQueue (List ℕ)) where
  open mq use {Queue, opened, send, receive}

  pub record State : Type 0 where
    pub ptoc : Queue
    pub ctop : Queue
    pub parent : Parent
    pub child : Child
    pub parent_buffer : List ℕ
    pub child_buffer : List ℕ
    pub max_latency : ℤ

  -- After the fork; what the child's buffer holds is not determined.
  abbrev pub init : List ℕ → State
  init garbage = record {
    ptoc = opened;
    ctop = opened;
    parent = sending 0;
    child = waiting 0;
    parent_buffer = payload;
    child_buffer = garbage;
    max_latency = pos 0;
  }

  -- A call of mq_send or mq_receive that succeeds, with what follows it, or the end of a loop. The
  -- clock's readings are free.
  pub data Step (s : State) : State → Type 0 where
    parent_send :
        {i : ℕ} (start : Timespec)
        → s.parent ≡ sending i
        → i < iterations
        → Step s (record s { ptoc = send s.ptoc s.parent_buffer; parent = receiving i start })
    parent_receive :
        {i : ℕ} {start : Timespec} (end : Timespec) {m : List ℕ} {q : Queue}
        → s.parent ≡ receiving i start
        → receive s.ctop ≡ some (m, q)
        → Step s (record s {
          ctop = q;
          parent = sending (i + 1);
          parent_buffer = m;
          max_latency =
              let latency = timespec_diff_ns end start in
              if ltb_ℤ s.max_latency latency then latency else s.max_latency;
        })
    parent_finish :
        {i : ℕ} → s.parent ≡ sending i → iterations ≤ i → Step s (record s { parent = reporting i })
    child_receive :
        {i : ℕ} {m : List ℕ} {q : Queue}
        → s.child ≡ waiting i
        → i < iterations
        → receive s.ptoc ≡ some (m, q)
        → Step s (record s { ptoc = q; child = replying i; child_buffer = m })
    child_send :
        {i : ℕ}
        → s.child ≡ replying i
        → Step s (record s { ctop = send s.ctop s.child_buffer; child = waiting (i + 1) })
    child_finish :
        {i : ℕ} → s.child ≡ waiting i → iterations ≤ i → Step s (record s { child = exited i })

  -- A call that fails: the parent leaves its loop, the child exits.
  pub data Fault (s : State) : State → Type 0 where
    parent_send_fails :
        {i : ℕ}
        → s.parent ≡ sending i
        → i < iterations
        → Fault s (record s { parent = reporting i })
    parent_receive_fails :
        {i : ℕ} {start : Timespec}
        → s.parent ≡ receiving i start
        → Fault s (record s { parent = reporting i })
    child_receive_fails :
        {i : ℕ} → s.child ≡ waiting i → i < iterations → Fault s (record s { child = exited i })
    child_send_fails : {i : ℕ} → s.child ≡ replying i → Fault s (record s { child = exited i })

  pub data Reach (s : State) : State → Type 0 where
    here : Reach s s
    next : {t u : State} → Reach s t → Step t u → Reach s u
    fault : {t u : State} → Reach s t → Fault t u → Reach s u

  -- Runs in which every call succeeds.
  pub data Clean (s : State) : State → Type 0 where
    here : Clean s s
    next : {t u : State} → Clean s t → Step t u → Clean s u
