-- ===== src/Ipc.antt =====
-- ipc: round trips over POSIX message queues, in one queue and in two, and counters sent over
-- pipes. The queues are the kernel's: an interface, of which the programs rely on order and on
-- blocking.
pub mod SharedQueue
pub mod TwoQueues
mod Tests
use microkernel_benchmark.Prelude.{
  ℕ, zero, suc, ◌+◌, ◌<◌, ◌≡◌, refl, ◌∙◌, arith, Option, none, some, List, [], ◌∷◌, ◌++◌, length,
}

-- mq_maxmsg, MSG_SIZE and ITERATIONS of both programs.
abbrev pub mq_maxmsg : ℕ
mq_maxmsg = 10

abbrev pub msg_size : ℕ
msg_size = 64

abbrev pub iterations : ℕ
iterations = 10_000

-- Messages of one priority: `send` on a queue with room appends, `receive` takes the oldest and
-- blocks (`none`) on an empty queue. `opened` is a queue just made by mq_unlink and mq_open.
pub record MessageQueue (Message : Type 0) : Type 1 where
  pub Queue : Type 0
  pub opened : Queue
  pub contents : Queue → List Message
  pub send : Queue → Message → Queue
  pub receive : Queue → Option (Message × Queue)
  pub opened_empty : contents opened ≡ []
  pub send_appends :
      (q : Queue) (m : Message)
      → length (contents q) < mq_maxmsg
      → contents (send q m) ≡ contents q ++ m ∷ []
  pub receive_oldest :
      (q : Queue) (m : Message) (q' : Queue)
      → receive q ≡ some (m, q')
      → contents q ≡ m ∷ contents q'
  pub receive_ready :
      (q : Queue) (m : Message) (ms : List Message)
      → contents q ≡ m ∷ ms
      → (q' : Queue) × (receive q ≡ some (m, q'))

-- Lists meet the interface.
abbrev pub take_first : {A : Type 0} → List A → Option (A × List A)
take_first [] = none
take_first (m ∷ ms) = some (m, ms)

pub take_first_oldest :
    {A : Type 0} (q : List A) (m : A) (q' : List A) → take_first q ≡ some (m, q') → q ≡ m ∷ q'
take_first_oldest [] m q' e = cc
take_first_oldest (x ∷ q) m q' e = ground arith

pub take_first_ready :
    {A : Type 0} (q : List A) (m : A) (ms : List A)
    → q ≡ m ∷ ms
    → (q' : List A) × (take_first q ≡ some (m, q'))
take_first_ready q m ms e = (ms, rw e)

abbrev pub list_queue : (Message : Type 0) → MessageQueue Message
list_queue Message = record {
  Queue = List Message;
  opened = [];
  contents = λ q. q;
  send = λ q m. q ++ m ∷ [];
  receive = take_first;
  opened_empty = refl;
  send_appends = λ q m room. refl;
  receive_oldest = take_first_oldest;
  receive_ready = take_first_ready;
}
