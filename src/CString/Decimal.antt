-- ===== src/CString/Decimal.antt =====
-- A number that is printed in decimal and read back.
use native.Mathlib.Numerals.{unary_clauses}
use microkernel_benchmark.Prelude.{
  ℕ, zero, suc, ◌+◌, ◌*◌, ◌/◌, ◌%◌, ◌^◌, ◌<◌, ◌≡◌, sym, ◌∙◌, ap, arith, [], ◌∷◌, true, false, ◌==◌,
  inl, inr, Bool-cases,
}
use microkernel_benchmark.CString.{
  Bytes, is_digit, leading_value, digits, decimal, capped, unsigned_value, strtoull,
}

digit-cons :
    (n d : ℕ) (acc : Bytes)
    → d < 10
    → leading_value n ((b'0' + d) ∷ acc) ≡ leading_value (n * 10 + d) acc
unfolding leading_value
digit-cons n d acc small = ground arith

pub digits_end :
    (fuel n : ℕ) (acc : Bytes)
    → (n / 10 == 0) ≡ true
    → digits (suc fuel) n acc ≡ (b'0' + n % 10) ∷ acc
unfolding digits
digits_end fuel n acc e = rw (digits, e)

pub digits_more :
    (fuel n : ℕ) (acc : Bytes)
    → (n / 10 == 0) ≡ false
    → digits (suc fuel) n acc ≡ digits fuel (n / 10) ((b'0' + n % 10) ∷ acc)
unfolding digits
digits_more fuel n acc e = rw (digits, e)

fuel_left : (fuel n : ℕ) → n < 10 ^ suc fuel → n / 10 < 10 ^ fuel
fuel_left fuel n fits = omega (arith, simp unary_clauses at fits)

pub leading_value-digits :
    (fuel n : ℕ) (acc : Bytes)
    → n < 10 ^ fuel
    → leading_value 0 (digits fuel n acc) ≡ leading_value n acc
unfolding digits
leading_value-digits zero n acc fits = ap (λ m. leading_value m acc) (omega arith)
leading_value-digits (suc fuel) n acc fits = elim (Bool-cases (n / 10 == 0)) [
  | inl e ↦
      rw (digits_end fuel n acc e)
        (digit-cons 0 (n % 10) acc (omega arith) ∙ ap (λ m. leading_value m acc) (ground arith))
  | inr e ↦ rw (digits_more fuel n acc e) (
      leading_value-digits fuel (n / 10) _ (fuel_left fuel n fits)
      ∙ digit-cons (n / 10) (n % 10) acc (omega arith)
      ∙ ap (λ m. leading_value m acc) (omega arith))
]

capped_small : (n : ℕ) → n < 2 ^ 64 → capped n ≡ n
capped_small n fits = ground arith

-- A number has at least one digit.
pub digits-cons :
    (fuel n : ℕ) (acc : Bytes)
    → (c : ℕ) × (cs : Bytes) × (digits (suc fuel) n acc ≡ c ∷ cs) × (is_digit c ≡ true)
unfolding digits
digits-cons zero n acc = elim (Bool-cases (n / 10 == 0)) [
  | inl e ↦ (_, _, digits_end 0 n acc e, ground arith)
  | inr e ↦ (_, _, digits_more 0 n acc e, ground arith)
]
digits-cons (suc fuel) n acc = elim (Bool-cases (n / 10 == 0)) [
  | inl e ↦ (_, _, digits_end (suc fuel) n acc e, ground arith)
  | inr e ↦
      let (c, cs, shape, digit) = digits-cons fuel (n / 10) ((b'0' + n % 10) ∷ acc) in
      (c, cs, digits_more (suc fuel) n acc e ∙ shape, digit)
]

pub decimal-cons : (n : ℕ) → (c : ℕ) × (cs : Bytes) × (decimal n ≡ c ∷ cs) × (is_digit c ≡ true)
unfolding decimal
decimal-cons n = digits-cons 19 n []

strtoull-digit :
    (c : ℕ) (cs : Bytes) → is_digit c ≡ true → strtoull (c ∷ cs) ≡ capped (leading_value 0 (c ∷ cs))
unfolding strtoull unsigned_value
strtoull-digit c cs digit = ground arith

-- What a program prints of a number below 2^64 with "%llu", strtoull reads back as that number.
pub strtoull-decimal : (n : ℕ) → n < 2 ^ 64 → strtoull (decimal n) ≡ n
unfolding decimal leading_value
strtoull-decimal n fits =
    let (c, cs, shape, digit) = digits-cons 19 n [] in
    ap strtoull shape
    ∙ strtoull-digit c cs digit
    ∙ ap (λ s. capped (leading_value 0 s)) (sym shape)
    ∙ ap capped (leading_value-digits 20 n [] (omega arith))
    ∙ capped_small n fits
