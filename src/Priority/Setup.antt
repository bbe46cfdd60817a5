-- ===== src/Priority/Setup.antt =====
-- The set-up of the two programs of scheduling/priority: their policy, and what each thread is to
-- run with.
use microkernel_benchmark.Prelude.{String, List, [], ◌∷◌, Bool, true, not}
use microkernel_benchmark.Prelude.Int.{ℤ, pos, ◌-ℤ◌}
use microkernel_benchmark.Prelude.Program.{Program, pure, die, warn_unless, ◌>>=◌, ◌>>◌}
use microkernel_benchmark.Policy.{
  Platform, linux, qnx, Policy, fifo, rr, parse_policy, Param, plain, measuring_param,
}

-- The parsers of linux_priority_inversion.c and of qnx_priority_inversion.c, a program for each
-- system.
unfoldable pub parse_sched_policy : Platform → String → Program Policy
unfolding parse_policy
parse_sched_policy linux =
    parse_policy linux "SCHED_SPORADIC is not supported on Linux." "Unknown policy: "
parse_sched_policy qnx = parse_policy qnx "" "Unknown policy: "

-- The policy from the arguments behind the program's name.
unfoldable pub qnx_policy : List String → Program Policy
unfolding parse_sched_policy
qnx_policy [] = pure fifo
qnx_policy (arg ∷ _) = parse_sched_policy qnx arg

unfoldable pub linux_policy : List String → Program Policy
unfolding parse_sched_policy
linux_policy [] = die "Usage: %s [fifo|rr]"
linux_policy (arg ∷ _) = parse_sched_policy linux arg

-- The name of the policy in the line that the high thread prints.
unfoldable pub qnx_name : Policy → String
qnx_name fifo = "FIFO"
qnx_name rr = "RR"
qnx_name _ = "SPORADIC"

unfoldable pub linux_name : Policy → String
linux_name fifo = "FIFO"
linux_name rr = "RR"
linux_name _ = "UNKNOWN"

-- A `pthread_attr_t`: `is_explicit` is PTHREAD_EXPLICIT_SCHED, without which a thread takes the
-- policy and the priority of its creator.
pub record Attributes : Type 0 where
  pub is_explicit : Bool
  pub policy : Policy
  pub param : Param

pub record Threads : Type 0 where
  pub low : Attributes
  pub med : Attributes
  pub high : Attributes

-- `inherits` is what `pthread_attr_init` sets, which the QNX program leaves.
unfoldable pub qnx_threads : Bool → ℤ → Policy → Threads
unfolding ◌-ℤ◌
qnx_threads inherits pmax policy =
    let attributes : ℤ → Attributes = λ prio. record {
      is_explicit = not inherits;
      policy = policy;
      param = measuring_param qnx policy prio;
    } in
    let pmed = pmax -ℤ pos 10 in
    record { low = attributes (pmed -ℤ pos 10); med = attributes pmed; high = attributes pmax }

unfoldable pub linux_threads : ℤ → Policy → Threads
unfolding ◌-ℤ◌
linux_threads prio_max policy =
    let attributes : ℤ → Attributes =
      λ prio. record { is_explicit = true; policy = policy; param = plain prio } in
    record {
      low = attributes (prio_max -ℤ pos 2);
      med = attributes (prio_max -ℤ pos 1);
      high = attributes prio_max;
    }

-- `main` of the Linux program up to the creation of the threads; `promoted` is the answer to the
-- request for its own priority.
unfoldable pub linux_setup : Bool → (Policy → ℤ) → List String → Program Threads
unfolding linux_policy linux_threads
linux_setup promoted prio_max args = do
  policy ← linux_policy args
  warn_unless promoted "setschedparam(main)"
  pure (linux_threads (prio_max policy) policy)

unfoldable pub qnx_setup : Bool → (Policy → ℤ) → List String → Program Threads
unfolding qnx_policy qnx_threads
qnx_setup inherits prio_max args = do
  policy ← qnx_policy args
  pure (qnx_threads inherits (prio_max policy) policy)
