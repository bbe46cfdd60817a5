-- ===== src/CString/Address.antt =====
-- A number printed in decimal behind a separator, found by strrchr and read back by atoi.
use microkernel_benchmark.Prelude.{
  ℕ, zero, suc, ◌/◌, ◌^◌, ◌<◌, ◌≡◌, refl, sym, ap, ◌∙◌, arith, [], ◌∷◌, ◌++◌, none, some, true,
  false, ◌==◌, All, inl, inr, Bool-cases,
}
use microkernel_benchmark.Prelude.Int.{pos}
use microkernel_benchmark.CString.{
  Bytes, is_digit, after_last, leading_value, digits, decimal, signed_value, atoi,
}
use microkernel_benchmark.CString.Decimal.{
  digits_end, digits_more, digits-cons, leading_value-digits,
}

abbrev pub IsDigit : ℕ → Type 0
IsDigit c = is_digit c ≡ true

pub digits-IsDigit : (fuel n : ℕ) (acc : Bytes) → All IsDigit acc → All IsDigit (digits fuel n acc)
unfolding digits IsDigit
digits-IsDigit zero n acc h = h
digits-IsDigit (suc fuel) n acc h = elim (Bool-cases (n / 10 == 0)) [
  | inl e ↦ rw (digits_end fuel n acc e) (ground arith, h)
  | inr e ↦ rw (digits_more fuel n acc e) (digits-IsDigit fuel (n / 10) _ (ground arith, h))
]

after_last-digits :
    (sep : ℕ) (ds : Bytes) → is_digit sep ≡ false → All IsDigit ds → after_last sep ds ≡ none
unfolding after_last IsDigit
after_last-digits sep [] off h = refl
after_last-digits sep (d ∷ ds) off (h, hs) =
    let rest = after_last-digits sep ds off hs in
    let differs : (d == sep) ≡ false = ground arith in rw (rest, differs)

after_last-append :
    (sep : ℕ) (pre ds : Bytes)
    → after_last sep ds ≡ none
    → after_last sep (pre ++ sep ∷ ds) ≡ some ds
unfolding after_last
after_last-append sep [] ds h = let own : (sep == sep) ≡ true = ground arith in rw (h, own)
after_last-append sep (x ∷ pre) ds h = let rest = after_last-append sep pre ds h in rw rest

atoi-digit :
    (c : ℕ) (cs : Bytes) → is_digit c ≡ true → atoi (c ∷ cs) ≡ pos (leading_value 0 (c ∷ cs))
unfolding atoi signed_value
atoi-digit c cs digit = ground arith

pub atoi-decimal : (n : ℕ) → n < 10 ^ 20 → atoi (decimal n) ≡ pos n
unfolding decimal leading_value
atoi-decimal n fits =
    let (c, cs, shape, digit) = digits-cons 19 n [] in
    ap atoi shape
    ∙ atoi-digit c cs digit
    ∙ ap (λ s. pos (leading_value 0 s)) (sym shape)
    ∙ ap pos (leading_value-digits 20 n [] fits)

pub after_last-decimal :
    (sep n : ℕ) (pre : Bytes)
    → is_digit sep ≡ false
    → after_last sep (pre ++ sep ∷ decimal n) ≡ some (decimal n)
unfolding decimal
after_last-decimal sep n pre off =
    after_last-append sep pre (decimal n)
      (after_last-digits sep (decimal n) off (digits-IsDigit 20 n [] tt))
