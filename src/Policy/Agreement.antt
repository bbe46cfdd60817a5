-- ===== src/Policy/Agreement.antt =====
-- What the parsers of scheduling policies accept.
use text.Mathlib.TextEquality.{eq_iff}
use microkernel_benchmark.Prelude.{
  ◌≡◌, ◌↔◌, arith, String, Bool, false, ◌&&◌, ◌||◌, str_eq, Bool-cases, inl, inr,
}
use microkernel_benchmark.Prelude.Program.{finished}
use microkernel_benchmark.Policy.{
  Platform, qnx, Policy, fifo, rr, sporadic, other, on_qnx, parse_policy,
}

-- The word of the command line for a policy that the platform has; SCHED_OTHER has none.
abbrev pub IsNamed : Platform → String → Policy → Type 0
IsNamed platform arg fifo = arg ≡ "fifo"
IsNamed platform arg rr = arg ≡ "rr"
IsNamed platform arg sporadic = (arg ≡ "sporadic") × (platform ≡ qnx)
IsNamed platform arg other = ⊥

abbrev pub accepts : Platform → String → Bool
accepts platform arg =
    str_eq arg "fifo" || str_eq arg "rr" || (str_eq arg "sporadic" && on_qnx platform)

-- The four kinds of argument that the chain of `strcmp` tells apart.
pub data Word (arg : String) : Type 0 where
  says_fifo : arg ≡ "fifo" → Word arg
  says_rr : arg ≡ "rr" → Word arg
  says_sporadic : arg ≡ "sporadic" → Word arg
  says_else :
      str_eq arg "fifo" ≡ false → str_eq arg "rr" ≡ false → str_eq arg "sporadic" ≡ false → Word arg

pub word : (arg : String) → Word arg
word arg = elim (Bool-cases (str_eq arg "fifo")) [
  | inl e ↦ says_fifo ((eq_iff arg "fifo").0 e)
  | inr f ↦ elim (Bool-cases (str_eq arg "rr")) [
    | inl e ↦ says_rr ((eq_iff arg "rr").0 e)
    | inr r ↦ elim (Bool-cases (str_eq arg "sporadic")) [
      | inl e ↦ says_sporadic ((eq_iff arg "sporadic").0 e)
      | inr s ↦ says_else f r s
    ]
  ]
]

named :
    (platform : Platform) (no_sporadic unknown arg : String) (q : Policy)
    → Word arg
    → ((parse_policy platform no_sporadic unknown arg).result ≡ finished q) ↔ IsNamed platform arg q
unfolding parse_policy
named platform no_sporadic unknown arg q (says_fifo e) =
    rw e (ground (arith, eq_iff "fifo" "rr", eq_iff "fifo" "sporadic"))
named platform no_sporadic unknown arg q (says_rr e) =
    rw e (ground (arith, eq_iff "rr" "fifo", eq_iff "rr" "sporadic"))
named platform no_sporadic unknown arg q (says_sporadic e) =
    rw e (ground (arith, eq_iff "sporadic" "fifo", eq_iff "sporadic" "rr"))
named platform no_sporadic unknown arg q (says_else f r s) =
    rw (f, r, s) (ground (arith, eq_iff arg "fifo", eq_iff arg "rr", eq_iff arg "sporadic"))

-- A parser returns a policy exactly when the word names it on the platform.
pub parse_policy-IsNamed :
    (platform : Platform) (no_sporadic unknown arg : String) (q : Policy)
    → ((parse_policy platform no_sporadic unknown arg).result ≡ finished q) ↔ IsNamed platform arg q
parse_policy-IsNamed platform no_sporadic unknown arg q =
    named platform no_sporadic unknown arg q (word arg)
