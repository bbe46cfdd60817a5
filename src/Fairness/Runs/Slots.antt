-- ===== src/Fairness/Runs/Slots.antt =====
-- The children and their pipes at each stage of the parent.
use microkernel_benchmark.Prelude.{
  ℕ, zero, suc, ◌+◌, ◌/◌, ◌%◌, ◌^◌, ◌<◌, ◌≤◌, ◌≡◌, refl, sym, ap, subst, ◌∙◌, inl, inr, arith,
  Option, none, some, List, [], ◌∷◌, All, get_elem?, set, take, length, sum_by, sum_by-full,
  Bool-cases, ◌==◌,
}
use mathlib.Core.Option.{some-injective, some-ne-none}
use microkernel_benchmark.CString.{Bytes, digits, decimal}
use microkernel_benchmark.CString.Decimal.{digits_end, digits_more}
use microkernel_benchmark.Fairness.{message, read_count}
use microkernel_benchmark.Fairness.Reports.{value, values, read_count-message}
use microkernel_benchmark.Fairness.Runs.{
  Child, counting, writing, ended, reaped, Slot, IsReaped, count_of, counts, set_count,
}

-- What a child has written, if it has.
abbrev pub written : Child → Option ℕ
written counting = none
written (writing n) = none
written (Child.closing o) = o
written (ended o) = o
written (reaped o) = o

abbrev pub outcome : List Slot → ℕ → Option ℕ
outcome [] j = none
outcome (x ∷ xs) zero = written x.child
outcome (x ∷ xs) (suc j) = outcome xs j

-- A pipe that is not read yet holds what its child has written.
abbrev pub Unread : Child → Bytes → Option ℕ → Type 0
Unread counting content count = (content ≡ []) × (count ≡ none)
Unread (writing n) content count = (content ≡ []) × (count ≡ none) × (n < 2 ^ 64)
Unread (Child.closing o) content count = (content ≡ message o) × (count ≡ none) × (value o < 2 ^ 64)
Unread (ended o) content count = (content ≡ message o) × (count ≡ none) × (value o < 2 ^ 64)
Unread (reaped o) content count = (content ≡ message o) × (count ≡ none) × (value o < 2 ^ 64)

abbrev pub UnreadSlot : Slot → Type 0
UnreadSlot x = Unread x.child x.content x.count

-- 1 for a child that the parent has waited for.
abbrev pub reaping : Child → ℕ
reaping (reaped o) = 1
reaping _ = 0

abbrev pub reaps : Slot → ℕ
reaps x = reaping x.child

pub reaps-le : (x : Slot) → reaps x ≤ 1
reaps-le x = reaping-le x.child
  where
    reaping-le : (c : Child) → reaping c ≤ 1
    reaping-le (reaped o) = omega arith
    reaping-le counting = omega arith
    reaping-le (writing n) = omega arith
    reaping-le (Child.closing o) = omega arith
    reaping-le (ended o) = omega arith

-- A count that is set is the one that the child has written.
abbrev pub Counted : Slot → Type 0
Counted x = (o : Option ℕ) × (x.child ≡ reaped o) × (x.count ≡ some (value o)) × (value o < 2 ^ 64)

abbrev pub Waiting : Slot → Type 0
Waiting x = (o : Option ℕ) × (x.child ≡ reaped o) × (x.content ≡ message o) × (value o < 2 ^ 64)

-- The first `i` counts are set, and the other pipes not yet read.
abbrev pub ReadTo : ℕ → List Slot → Type 0
ReadTo zero xs = All Waiting xs
ReadTo (suc i) [] = Unit
ReadTo (suc i) (x ∷ xs) = Counted x × ReadTo i xs

waits :
    (x : Slot) (c : Child) → x.child ≡ c → Unread c x.content x.count → reaping c ≡ 1 → Waiting x
waits x (reaped o) e (p, q, r) h = (o, e, p, r)
waits x counting e u h = absurd (omega arith)
waits x (writing n) e u h = absurd (omega arith)
waits x (Child.closing o) e u h = absurd (omega arith)
waits x (ended o) e u h = absurd (omega arith)

all-Waiting : (xs : List Slot) → All UnreadSlot xs → All (λ x. reaps x ≡ 1) xs → All Waiting xs
all-Waiting [] u r = tt
all-Waiting (x ∷ xs) (u, us) (r, rs) = (waits x x.child refl u r, all-Waiting xs us rs)

-- When the parent has waited for as many children as there are.
pub ReadTo-start : (xs : List Slot) → All UnreadSlot xs → sum_by reaps xs ≡ length xs → ReadTo 0 xs
ReadTo-start xs u e = all-Waiting xs u (sum_by-full reaps xs reaps-le e)

pub ReadTo-IsReaped :
    (i : ℕ) (xs : List Slot) (j : ℕ) {x : Slot} → ReadTo i xs → get_elem? xs j ≡ some x → IsReaped x
ReadTo-IsReaped i [] j r e = absurd (some-ne-none _ (sym e))
ReadTo-IsReaped zero (y ∷ xs) zero ((o, c, _, _), r) e =
    (o, sym (ap (λ z. z.child) (some-injective _ _ e)) ∙ c)
ReadTo-IsReaped zero (y ∷ xs) (suc j) (_, r) e = ReadTo-IsReaped zero xs j r e
ReadTo-IsReaped (suc i) (y ∷ xs) zero ((o, c, _, _), r) e =
    (o, sym (ap (λ z. z.child) (some-injective _ _ e)) ∙ c)
ReadTo-IsReaped (suc i) (y ∷ xs) (suc j) (_, r) e = ReadTo-IsReaped i xs j r e

-- Twenty digits fit into the buffer of 64 bytes.
length-digits : (fuel n : ℕ) (acc : Bytes) → length (digits fuel n acc) ≤ fuel + length acc
unfolding digits
length-digits zero n acc = omega arith
length-digits (suc fuel) n acc = elim (Bool-cases (n / 10 == 0)) [
  | inl e ↦ rw (digits_end fuel n acc e) (omega arith)
  | inr e ↦
      rw (digits_more fuel n acc e)
        (omega (arith, length-digits fuel (n / 10) ((b'0' + n % 10) ∷ acc)))
]

take_all : (n : ℕ) (xs : Bytes) → length xs ≤ n → take n xs ≡ xs
take_all zero [] h = refl
take_all zero (x ∷ xs) h = absurd (omega arith)
take_all (suc n) [] h = refl
take_all (suc n) (x ∷ xs) h = ap (λ ys. x ∷ ys) (take_all n xs (omega arith))

message-fits : (o : Option ℕ) → take 63 (message o) ≡ message o
unfolding message decimal
message-fits none = refl
message-fits (some n) = take_all 63 (decimal n) (omega (arith, length-digits 20 n []))

pub read_lem :
    (o : Option ℕ) {b : Bytes} → b ≡ message o → value o < 2 ^ 64 → read_count (take 63 b) ≡ value o
read_lem o e fits =
    ap (λ b. read_count (take 63 b)) e ∙ ap read_count (message-fits o) ∙ read_count-message o fits

pub ReadTo-next :
    (i : ℕ) (xs : List Slot) {x : Slot}
    → ReadTo i xs
    → get_elem? xs i ≡ some x
    → ReadTo (suc i) (set xs i (set_count x))
ReadTo-next i [] r e = tt
ReadTo-next zero (y ∷ xs) {x} (w, r) e =
    let (o, c, b, fits) = subst Waiting (some-injective _ _ e) w in
    ((o, c, ap some (read_lem o b fits), fits), r)
ReadTo-next (suc i) (y ∷ xs) (w, r) e = (w, ReadTo-next i xs r e)

pub ReadTo-all : (i : ℕ) (xs : List Slot) → length xs ≤ i → ReadTo i xs → All Counted xs
ReadTo-all i [] h r = tt
ReadTo-all zero (x ∷ xs) h r = absurd (omega arith)
ReadTo-all (suc i) (x ∷ xs) h (c, r) = (c, ReadTo-all i xs (omega arith) r)

-- The array of counts holds what the children have written.
pub counts-values :
    (f : ℕ → Option ℕ) (i : ℕ) (xs : List Slot)
    → ((j : ℕ) → f (i + j) ≡ outcome xs j)
    → All Counted xs
    → counts xs ≡ values f (length xs) i
counts-values f i [] h c = refl
counts-values f i (x ∷ xs) h ((o, e, q, _), cs) =
    let first : count_of x.count ≡ value (f i) =
      ap count_of q ∙ ap value (sym (ap f (omega arith) ∙ h 0 ∙ ap written e)) in
    let others : counts xs ≡ values f (length xs) (i + 1) =
      counts-values f (i + 1) xs (λ k. ap f (omega arith) ∙ h (suc k)) cs in
    λ j. first j ∷ others j

pub outcome-fits : (xs : List Slot) (j : ℕ) → All Counted xs → value (outcome xs j) < 2 ^ 64
outcome-fits [] j c = omega arith
outcome-fits (x ∷ xs) zero ((o, e, _, fits), c) =
    subst (λ k. value (written k) < 2 ^ 64) (sym e) fits
outcome-fits (x ∷ xs) (suc j) (_, c) = outcome-fits xs j c
