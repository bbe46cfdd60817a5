-- ===== src/Prelude/Lists.antt =====
-- Lists measured and indexed by native numbers, under the library's names.
use Prim.Native.Nat.{ℕ, zero, suc, ◌+◌, ◌-◌, ◌≤◌, ◌<◌, min}
use native.Mathlib.Decide.{ℕ_discrete}
use mathlib.Core.Path.{◌≡◌, refl, sym, ap, subst}
use mathlib.Core.Logic.{◌≢◌, ◌⊎◌, inl, inr}
use mathlib.Core.List.{List, [], ◌∷◌, ◌++◌, map}
use mathlib.Core.Option.{Option, none, some, some-injective, some-ne-none}
use native.Mathlib.Omega.{arith}

module _ {ℓ} {A : Type ℓ} where
  abbrev pub length : List A → ℕ
  length [] = 0
  length (x ∷ xs) = suc (length xs)

  abbrev pub get_elem? : List A → ℕ → Option A
  get_elem? [] i = none
  get_elem? (x ∷ xs) zero = some x
  get_elem? (x ∷ xs) (suc i) = get_elem? xs i

  -- A write out of bounds changes nothing.
  abbrev pub set : List A → ℕ → A → List A
  set [] i v = []
  set (x ∷ xs) zero v = v ∷ xs
  set (x ∷ xs) (suc i) v = x ∷ set xs i v

  pub length-append : (xs ys : List A) → length (xs ++ ys) ≡ length xs + length ys
  length-append [] ys = omega arith
  length-append (x ∷ xs) ys = omega (arith, length-append xs ys)

module _ {ℓ} {A : Type ℓ} where
  pub length-set : (xs : List A) (i : ℕ) (v : A) → length (set xs i v) ≡ length xs
  length-set [] i v = refl
  length-set (x ∷ xs) zero v = refl
  length-set (x ∷ xs) (suc i) v = ap suc (length-set xs i v)

  pub get_elem?-set_self :
      (xs : List A) (i : ℕ) (v : A) → i < length xs → get_elem? (set xs i v) i ≡ some v
  get_elem?-set_self [] i v h = elim h [ ]
  get_elem?-set_self (x ∷ xs) zero v h = refl
  get_elem?-set_self (x ∷ xs) (suc i) v h = get_elem?-set_self xs i v (omega arith)

  pub get_elem?-set_ne :
      (xs : List A) {i j : ℕ} (v : A) → i ≢ j → get_elem? (set xs i v) j ≡ get_elem? xs j
  get_elem?-set_ne [] v h = refl
  get_elem?-set_ne (x ∷ xs) {i = zero} {j = zero} v h = absurd (h refl)
  get_elem?-set_ne (x ∷ xs) {i = zero} {j = suc j} v h = refl
  get_elem?-set_ne (x ∷ xs) {i = suc i} {j = zero} v h = refl
  get_elem?-set_ne (x ∷ xs) {i = suc i} {j = suc j} v h = get_elem?-set_ne xs v (λ e. h (ap suc e))

module _ {ℓ} {A : Type ℓ} where
  abbrev pub get_or : List A → ℕ → A → A
  get_or [] i d = d
  get_or (x ∷ xs) zero d = x
  get_or (x ∷ xs) (suc i) d = get_or xs i d

  abbrev pub take : ℕ → List A → List A
  take zero xs = []
  take (suc n) [] = []
  take (suc n) (x ∷ xs) = x ∷ take n xs

  abbrev pub drop : ℕ → List A → List A
  drop zero xs = xs
  drop (suc n) [] = []
  drop (suc n) (x ∷ xs) = drop n xs

  abbrev pub replicate : ℕ → A → List A
  replicate zero a = []
  replicate (suc n) a = a ∷ replicate n a

  pub take-append-drop : (n : ℕ) (xs : List A) → take n xs ++ drop n xs ≡ xs
  take-append-drop zero xs = refl
  take-append-drop (suc n) [] = refl
  take-append-drop (suc n) (x ∷ xs) = rw (take-append-drop n xs)

  pub length-take : (n : ℕ) (xs : List A) → length (take n xs) ≡ min n (length xs)
  length-take zero xs = omega arith
  length-take (suc n) [] = omega arith
  length-take (suc n) (x ∷ xs) = omega (arith, length-take n xs)

  pub length-drop : (n : ℕ) (xs : List A) → length (drop n xs) ≡ length xs - n
  length-drop zero xs = omega arith
  length-drop (suc n) [] = omega arith
  length-drop (suc n) (x ∷ xs) = omega (arith, length-drop n xs)

  pub length-replicate : (n : ℕ) (a : A) → length (replicate n a) ≡ n
  length-replicate zero a = refl
  length-replicate (suc n) a = ap suc (length-replicate n a)

  pub length-map {κ} : {B : Type κ} (xs : List A) (f : A → B) → length (map f xs) ≡ length xs
  length-map [] f = refl
  length-map (x ∷ xs) f = ap suc (length-map xs f)

-- Every element; some element.
abbrev pub All {ℓ κ} : {A : Type ℓ} → (A → Type κ) → List A → Type κ
All P [] = Unit
All P (x ∷ xs) = P x × All P xs

abbrev pub Any {ℓ} : {A : Type ℓ} → (A → Type 0) → List A → Type 0
Any P [] = ⊥
Any P (x ∷ xs) = P x ⊎ Any P xs

pub All-append {ℓ κ} :
    {A : Type ℓ} (P : A → Type κ) (xs ys : List A) → All P xs → All P ys → All P (xs ++ ys)
All-append P [] ys hx hy = hy
All-append P (x ∷ xs) ys hx hy = (hx.0, All-append P xs ys hx.1 hy)

-- What holds of every element holds of the one at an index, and is kept by a write.
pub get_elem?-All {ℓ κ} :
    {A : Type ℓ} (P : A → Type κ) (xs : List A) (i : ℕ) {x : A}
    → All P xs
    → get_elem? xs i ≡ some x
    → P x
get_elem?-All P [] i h e = absurd (some-ne-none _ (sym e))
get_elem?-All P (y ∷ xs) zero (h, hs) e = subst P (some-injective _ _ e) h
get_elem?-All P (y ∷ xs) (suc i) (h, hs) e = get_elem?-All P xs i hs e

pub set-All {ℓ κ} :
    {A : Type ℓ} (P : A → Type κ) (xs : List A) (i : ℕ) (x : A)
    → All P xs
    → P x
    → All P (set xs i x)
set-All P [] i x h p = tt
set-All P (y ∷ xs) zero x (h, hs) p = (p, hs)
set-All P (y ∷ xs) (suc i) x (h, hs) p = (h, set-All P xs i x hs p)

abbrev pub flatten {ℓ} : {A : Type ℓ} → List (List A) → List A
flatten [] = []
flatten (xs ∷ xss) = xs ++ flatten xss

pub All-flatten {ℓ κ} :
    {A : Type ℓ} (P : A → Type κ) (xss : List (List A)) → All (All P) xss → All P (flatten xss)
All-flatten P [] h = tt
All-flatten P (xs ∷ xss) (h, hs) = All-append P xs (flatten xss) h (All-flatten P xss hs)

-- To split on a computed list and keep the equation.
pub List-cases {ℓ} :
    {A : Type ℓ} (xs : List A) → (xs ≡ []) ⊎ ((x : A) × (rest : List A) × (xs ≡ x ∷ rest))
List-cases [] = inl refl
List-cases (x ∷ rest) = inr (x, rest, refl)

-- A sum over a list, and what a write does to it.
abbrev pub sum_by {ℓ} : {A : Type ℓ} → (A → ℕ) → List A → ℕ
sum_by f [] = 0
sum_by f (x ∷ xs) = f x + sum_by f xs

pub sum_by-set {ℓ} :
    {A : Type ℓ} (f : A → ℕ) (xs : List A) (i : ℕ) {x : A} (y : A)
    → get_elem? xs i ≡ some x
    → sum_by f (set xs i y) + f x ≡ sum_by f xs + f y
sum_by-set f [] i y e = absurd (some-ne-none _ (sym e))
sum_by-set f (z ∷ xs) zero y e = omega (arith, ap f (some-injective _ _ e))
sum_by-set f (z ∷ xs) (suc i) y e = omega (arith, sum_by-set f xs i y e)

pub sum_by-append {ℓ} :
    {A : Type ℓ} (f : A → ℕ) (xs ys : List A) → sum_by f (xs ++ ys) ≡ sum_by f xs + sum_by f ys
sum_by-append f [] ys = omega arith
sum_by-append f (x ∷ xs) ys = omega (arith, sum_by-append f xs ys)

-- Each element counts 0 or 1, and the sum is below the length: some element counts 0.
pub sum_by-lt {ℓ} :
    {A : Type ℓ} (f : A → ℕ) (xs : List A)
    → sum_by f xs < length xs
    → (i : ℕ) × (x : A) × (get_elem? xs i ≡ some x) × (f x ≡ 0)
sum_by-lt f [] h = absurd (omega arith)
sum_by-lt f (x ∷ xs) h = elim (ℕ_discrete (f x) 0) [
  | yes e ↦ (0, x, refl, e)
  | no ne ↦ let (i, y, g, e) = sum_by-lt f xs (omega arith) in (suc i, y, g, e)
]

pub sum_by-le {ℓ} :
    {A : Type ℓ} (f : A → ℕ) (xs : List A) → ((x : A) → f x ≤ 1) → sum_by f xs ≤ length xs
sum_by-le f [] h = omega arith
sum_by-le f (x ∷ xs) h = omega (arith, h x, sum_by-le f xs h)

pub sum_by-full {ℓ} :
    {A : Type ℓ} (f : A → ℕ) (xs : List A)
    → ((x : A) → f x ≤ 1)
    → sum_by f xs ≡ length xs
    → All (λ x. f x ≡ 1) xs
sum_by-full f [] h e = tt
sum_by-full f (x ∷ xs) h e = (
  omega (arith, h x, sum_by-le f xs h),
  sum_by-full f xs h (omega (arith, h x, sum_by-le f xs h)),
)

pub elem_at {ℓ} :
    {A : Type ℓ} (xs : List A) (i : ℕ) → i < length xs → (x : A) × (get_elem? xs i ≡ some x)
elem_at [] i lt = absurd (omega arith)
elem_at (x ∷ xs) zero lt = (x, refl)
elem_at (x ∷ xs) (suc i) lt = elem_at xs i (omega arith)

-- The first elements, after a write just behind them, and of a shorter prefix.
pub take-set-All {ℓ κ} :
    {A : Type ℓ} (P : A → Type κ) (n : ℕ) (xs : List A) (x : A)
    → All P (take n xs)
    → P x
    → All P (take (suc n) (set xs n x))
take-set-All P n [] x h p = tt
take-set-All P zero (y ∷ xs) x h p = (p, tt)
take-set-All P (suc n) (y ∷ xs) x (h, hs) p = (h, take-set-All P n xs x hs p)

pub take-All-le {ℓ κ} :
    {A : Type ℓ} (P : A → Type κ) (n m : ℕ) (xs : List A)
    → n ≤ m
    → All P (take m xs)
    → All P (take n xs)
take-All-le P zero m xs h a = tt
take-All-le P (suc n) m [] h a = tt
take-All-le P (suc n) zero (x ∷ xs) h a = absurd (omega arith)
take-All-le P (suc n) (suc m) (x ∷ xs) h (a, as_) = (a, take-All-le P n m xs (omega arith) as_)

pub All-mono {ℓ κ} :
    {A : Type ℓ} (P Q : A → Type κ) (xs : List A) → ((x : A) → P x → Q x) → All P xs → All Q xs
All-mono P Q [] f h = tt
All-mono P Q (x ∷ xs) f (h, hs) = (f x h, All-mono P Q xs f hs)
