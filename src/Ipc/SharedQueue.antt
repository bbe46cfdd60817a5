-- ===== src/Ipc/SharedQueue.antt =====
-- ipc/ipc_latency.c: a parent and an echoing child over one message queue, which both of them read
-- and write. A message is the text up to its NUL.
pub mod Behaviour
pub mod Teardown
use microkernel_benchmark.Prelude.{
  ℕ, zero, suc, ◌+◌, ◌<◌, ◌≤◌, ◌≡◌, Option, some, List, [], ◌∷◌, String, Bool, ◌&&◌, if◌then◌else◌,
}
use microkernel_benchmark.Prelude.Int.{ℤ, pos, ltb_ℤ}
use microkernel_benchmark.Prelude.Program.{Program, pure, require, warn_unless, ◌>>=◌, ◌>>◌}
use microkernel_benchmark.Timespec
use microkernel_benchmark.Timespec.{Timespec}
use microkernel_benchmark.Policy.{
  Platform, Policy, fifo, rr, sporadic, other, on_qnx, is_sporadic, parse_policy, measuring_param,
  Host,
}
use microkernel_benchmark.Ipc.{MessageQueue, iterations}

abbrev pub num_load_threads : ℕ
num_load_threads = 3

unfoldable pub timespec_add : Timespec → ℕ → Timespec
timespec_add = Timespec.timespec_add

unfoldable pub timespec_diff_ns : Timespec → Timespec → ℤ
timespec_diff_ns = Timespec.timespec_diff_ns

unfoldable pub parse_sched_policy : Platform → String → Program Policy
unfolding parse_policy
parse_sched_policy platform =
    parse_policy platform "SCHED_SPORADIC not supported on Linux." "Unknown policy: "

unfoldable pub create_loaders : Host → ℕ → ℕ → Program (Unit {0})
create_loaders host zero i = pure tt
create_loaders host (suc n) i = do
  require (host.create_thread i) "pthread_create"
  create_loaders host n (i + 1)

-- `main` up to the fork: `opened` and `forked` say whether mq_open and fork succeeded.
unfoldable pub start : Host → Bool → Bool → List String → Program Policy
unfolding parse_sched_policy create_loaders
start host opened forked args = do
  policy ← elim args [ [] ↦ pure fifo | arg ∷ _ ↦ parse_sched_policy host.platform arg ]
  require opened "mq_open"
  create_loaders host num_load_threads 0
  require forked "fork"
  pure policy

-- The parent's own scheduling; a refusal is reported and passed over.
unfoldable pub promote : Host → Policy → Program (Unit {0})
promote host policy =
    warn_unless
      (host.set_scheduler policy (measuring_param host.platform policy (host.prio_max policy)))
      (if on_qnx host.platform && is_sporadic policy
        then "sched_setscheduler (sporadic)"
        else "sched_setscheduler")

unfoldable pub policy_str : Policy → String
policy_str fifo = "FIFO"
policy_str rr = "RR"
policy_str sporadic = "SPORADIC"
policy_str other = "SPORADIC"

-- Where the two processes stand in their loops; `i` counts their rounds.
pub data Parent : Type 0 where
  sending : (i : ℕ) → Parent
  receiving : (i : ℕ) (start : Timespec) → Parent
  reporting : Parent

pub data Child : Type 0 where
  waiting : (i : ℕ) → Child
  replying : (i : ℕ) → Child
  exited : Child

module _ (mq : MessageQueue String) where
  open mq use {Queue, opened, send, receive}

  pub record State : Type 0 where
    pub queue : Queue
    pub parent : Parent
    pub child : Child
    pub parent_buffer : String
    pub child_buffer : String
    pub max_latency : ℤ

  -- After the fork; what the child's buffer holds is not determined.
  abbrev pub init : String → State
  init garbage = record {
    queue = opened;
    parent = sending 0;
    child = waiting 0;
    parent_buffer = "ping";
    child_buffer = garbage;
    max_latency = pos 0;
  }

  -- One call of mq_send or mq_receive with what follows it. The clock's readings are free.
  pub data Step (s : State) : State → Type 0 where
    parent_send :
        {i : ℕ} (start : Timespec)
        → s.parent ≡ sending i
        → i < iterations
        → Step s (record s { queue = send s.queue s.parent_buffer; parent = receiving i start })
    parent_receive :
        {i : ℕ} {start : Timespec} (end : Timespec) {m : String} {q : Queue}
        → s.parent ≡ receiving i start
        → receive s.queue ≡ some (m, q)
        → Step s (record s {
          queue = q;
          parent = sending (i + 1);
          parent_buffer = m;
          max_latency =
              let latency = timespec_diff_ns end start in
              if ltb_ℤ s.max_latency latency then latency else s.max_latency;
        })
    parent_finish :
        {i : ℕ} → s.parent ≡ sending i → iterations ≤ i → Step s (record s { parent = reporting })
    parent_send_fails :
        {i : ℕ} → s.parent ≡ sending i → i < iterations → Step s (record s { parent = reporting })
    parent_receive_fails :
        {i : ℕ} {start : Timespec}
        → s.parent ≡ receiving i start
        → Step s (record s { parent = reporting })
    child_receive :
        {i : ℕ} {m : String} {q : Queue}
        → s.child ≡ waiting i
        → i < iterations
        → receive s.queue ≡ some (m, q)
        → Step s (record s { queue = q; child = replying i; child_buffer = m })
    child_send :
        {i : ℕ}
        → s.child ≡ replying i
        → Step s (record s { queue = send s.queue s.child_buffer; child = waiting (i + 1) })
    child_finish :
        {i : ℕ} → s.child ≡ waiting i → iterations ≤ i → Step s (record s { child = exited })
    child_receive_fails :
        {i : ℕ} → s.child ≡ waiting i → i < iterations → Step s (record s { child = exited })
    child_send_fails : {i : ℕ} → s.child ≡ replying i → Step s (record s { child = exited })

  pub data Reach (s : State) : State → Type 0 where
    here : Reach s s
    next : {t u : State} → Reach s t → Step t u → Reach s u
