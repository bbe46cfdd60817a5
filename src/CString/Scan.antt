-- ===== src/CString/Scan.antt =====
-- `sscanf` with "%d" and "%ld", and `snprintf` with them. A number is taken without a bound.
use microkernel_benchmark.Prelude.{
  ℕ, ◌+◌, ◌-◌, ◌*◌, subst, ◌^◌, ◌<◌, ◌≡◌, refl, sym, ap, ◌∙◌, arith, [], ◌∷◌, ◌++◌, Option, none,
  some, Bool, true, not, ◌==◌, All, if◌then◌else◌,
}
use microkernel_benchmark.Prelude.Int.{ℤ, pos, negsuc, ◌-ℤ◌}
use microkernel_benchmark.CString.{Bytes, is_digit, is_space, leading_value, decimal}
use microkernel_benchmark.CString.Decimal.{decimal-cons, leading_value-digits}
use microkernel_benchmark.CString.Address.{IsDigit, digits-IsDigit}

unfoldable pub signed_decimal : ℤ → Bytes
unfolding decimal
signed_decimal (pos n) = decimal n
signed_decimal (negsuc n) = b'-' ∷ decimal (n + 1)

unfoldable pub skip_spaces : Bytes → Bytes
skip_spaces [] = []
skip_spaces (c ∷ cs) = let rest = skip_spaces cs in if is_space c then rest else c ∷ cs

unfoldable pub after_digits : Bytes → Bytes
after_digits [] = []
after_digits (c ∷ cs) = let rest = after_digits cs in if is_digit c then rest else c ∷ cs

-- At least one digit, and what stands behind the digits.
unfoldable pub scan_digits : Bytes → Option (ℕ × Bytes)
unfolding leading_value after_digits
scan_digits [] = none
scan_digits (c ∷ cs) =
    if is_digit c then some (leading_value 0 (c ∷ cs), after_digits (c ∷ cs)) else none

unfoldable pub positive : Option (ℕ × Bytes) → Option (ℤ × Bytes)
positive none = none
positive (some (n, rest)) = some (pos n, rest)

unfoldable pub negative : Option (ℕ × Bytes) → Option (ℤ × Bytes)
unfolding ◌-ℤ◌
negative none = none
negative (some (n, rest)) = some (pos 0 -ℤ pos n, rest)

unfoldable pub scan_signed : Bytes → Option (ℤ × Bytes)
unfolding scan_digits positive negative
scan_signed [] = none
scan_signed (c ∷ cs) =
    if c == b'-'
    then negative (scan_digits cs)
    else if c == b'+'
    then positive (scan_digits cs)
    else positive (scan_digits (c ∷ cs))

-- One conversion: blanks, a sign, digits; `none` is an input that does not match.
unfoldable pub scan_int : Bytes → Option (ℤ × Bytes)
unfolding skip_spaces scan_signed
scan_int s = scan_signed (skip_spaces s)

-- What follows a number and does not belong to it.
abbrev pub ends_number : Bytes → Bool
ends_number [] = true
ends_number (c ∷ cs) = not (is_digit c)

abbrev pub magnitude : ℤ → ℕ
magnitude (pos n) = n
magnitude (negsuc n) = n + 1

leading_value_stops : (n : ℕ) (rest : Bytes) → ends_number rest ≡ true → leading_value n rest ≡ n
unfolding leading_value
leading_value_stops n [] e = refl
leading_value_stops n (c ∷ rest) e = ground arith

leading_value-append :
    (n : ℕ) (ds rest : Bytes)
    → All IsDigit ds
    → ends_number rest ≡ true
    → leading_value n (ds ++ rest) ≡ leading_value n ds
unfolding leading_value
leading_value-append n [] rest h e = leading_value_stops n rest e
leading_value-append n (d ∷ ds) rest (h, hs) e =
    rw (leading_value-append (n * 10 + (d - b'0')) ds rest hs e)

after_digits-append :
    (ds rest : Bytes) → All IsDigit ds → ends_number rest ≡ true → after_digits (ds ++ rest) ≡ rest
unfolding after_digits
after_digits-append [] [] h e = refl
after_digits-append [] (c ∷ rest) h e = ground arith
after_digits-append (d ∷ ds) rest (h, hs) e =
    let more = after_digits-append ds rest hs e in ground arith

scan_digits_found :
    (c : ℕ) (cs : Bytes)
    → is_digit c ≡ true
    → scan_digits (c ∷ cs) ≡ some (leading_value 0 (c ∷ cs), after_digits (c ∷ cs))
unfolding scan_digits
scan_digits_found c cs digit = rw digit refl

scan_digits-append :
    (c : ℕ) (cs rest : Bytes)
    → All IsDigit (c ∷ cs)
    → ends_number rest ≡ true
    → scan_digits (c ∷ cs ++ rest) ≡ some (leading_value 0 (c ∷ cs), rest)
scan_digits-append c cs rest h e =
    scan_digits_found c (cs ++ rest) h.0
    ∙ ap (λ v. some (v, after_digits (c ∷ cs ++ rest))) (leading_value-append 0 (c ∷ cs) rest h e)
    ∙ ap (λ r. some (leading_value 0 (c ∷ cs), r)) (after_digits-append (c ∷ cs) rest h e)

decimal-IsDigit : (n : ℕ) → All IsDigit (decimal n)
unfolding decimal
decimal-IsDigit n = digits-IsDigit 20 n [] tt

leading_value-decimal : (n : ℕ) → n < 10 ^ 20 → leading_value 0 (decimal n) ≡ n
unfolding decimal leading_value
leading_value-decimal n fits = leading_value-digits 20 n [] fits

scan_digits-decimal :
    (n : ℕ) (rest : Bytes)
    → n < 10 ^ 20
    → ends_number rest ≡ true
    → scan_digits (decimal n ++ rest) ≡ some (n, rest)
scan_digits-decimal n rest fits e =
    let (c, cs, shape, digit) = decimal-cons n in
    ap (λ s. scan_digits (s ++ rest)) shape
    ∙ scan_digits-append c cs rest (subst (All IsDigit) shape (decimal-IsDigit n)) e
    ∙ ap (λ s. some (leading_value 0 s, rest)) (sym shape)
    ∙ ap (λ m. some (m, rest)) (leading_value-decimal n fits)

scan_int-digit :
    (c : ℕ) (cs : Bytes) → is_digit c ≡ true → scan_int (c ∷ cs) ≡ positive (scan_digits (c ∷ cs))
unfolding scan_int skip_spaces scan_signed
scan_int-digit c cs digit = ground arith

scan_int-minus : (cs : Bytes) → scan_int (b'-' ∷ cs) ≡ negative (scan_digits cs)
unfolding scan_int skip_spaces scan_signed
scan_int-minus cs = refl

pub scan_int-space : (cs : Bytes) → scan_int (b' ' ∷ cs) ≡ scan_int cs
unfolding scan_int skip_spaces
scan_int-space cs = refl

minus : (n : ℕ) → pos 0 -ℤ pos (n + 1) ≡ negsuc n
unfolding ◌-ℤ◌
minus n = ground arith

-- A number that was printed, with something behind it that is not a digit, is read back.
pub scan_int-signed_decimal :
    (z : ℤ) (rest : Bytes)
    → magnitude z < 10 ^ 20
    → ends_number rest ≡ true
    → scan_int (signed_decimal z ++ rest) ≡ some (z, rest)
unfolding signed_decimal positive negative ◌-ℤ◌
scan_int-signed_decimal (pos n) rest fits e =
    let (c, cs, shape, digit) = decimal-cons n in
    ap (λ s. scan_int (s ++ rest)) shape
    ∙ scan_int-digit c (cs ++ rest) digit
    ∙ ap (λ s. positive (scan_digits (s ++ rest))) (sym shape)
    ∙ ap positive (scan_digits-decimal n rest fits e)
scan_int-signed_decimal (negsuc n) rest fits e =
    scan_int-minus (decimal (n + 1) ++ rest)
    ∙ ap negative (scan_digits-decimal (n + 1) rest fits e)
    ∙ ap (λ z. some (z, rest)) (minus n)
