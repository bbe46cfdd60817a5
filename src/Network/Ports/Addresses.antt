-- ===== src/Network/Ports/Addresses.antt =====
-- The scanners at the tokens that `ss` and `netstat` print: an address, a separator and a port.
use microkernel_benchmark.Prelude.{
  ℕ, ◌^◌, ◌<◌, ◌≡◌, refl, sym, ap, ◌∙◌, arith, List, [], ◌∷◌, ◌++◌, some, true, false, All,
}
use microkernel_benchmark.Prelude.Int.{pos}
use microkernel_benchmark.CString.{Bytes, is_digit, has_byte, after_last, atoi, decimal}
use microkernel_benchmark.CString.Decimal.{decimal-cons}
use microkernel_benchmark.CString.Address.{atoi-decimal, after_last-decimal}
use microkernel_benchmark.Network.Ports.{port_of, first_address, fourth_field}

port_of_found :
    (sep c : ℕ) (token cs : Bytes)
    → after_last sep token ≡ some (c ∷ cs)
    → port_of sep token ≡ some (atoi (c ∷ cs))
unfolding port_of
port_of_found sep c token cs e = rw (port_of, e)

port_of-decimal :
    (sep n : ℕ) (address : Bytes)
    → is_digit sep ≡ false
    → n < 2 ^ 31
    → port_of sep (address ++ sep ∷ decimal n) ≡ some (pos n)
port_of-decimal sep n address off fits =
    let (c, cs, shape, digit) = decimal-cons n in
    port_of_found sep c (address ++ sep ∷ decimal n) cs
      (after_last-decimal sep n address off ∙ ap some shape)
    ∙ ap some (ap atoi (sym shape) ∙ atoi-decimal n (omega arith))

has_byte-append : (c : ℕ) (pre rest : Bytes) → has_byte c (pre ++ c ∷ rest) ≡ true
unfolding has_byte
has_byte-append c [] rest = ground arith
has_byte-append c (x ∷ pre) rest = let later = has_byte-append c pre rest in ground (arith, later)

first_address_here :
    (token : Bytes) (tokens : List Bytes)
    → has_byte b':' token ≡ true
    → first_address (token ∷ tokens) ≡ port_of b':' token
unfolding first_address
first_address_here token tokens e = rw (first_address, e)

first_address_later :
    (token : Bytes) (tokens : List Bytes)
    → has_byte b':' token ≡ false
    → first_address (token ∷ tokens) ≡ first_address tokens
unfolding first_address
first_address_later token tokens e = rw (first_address, e)

-- A line of `ss` gives the port of its first token with a colon, which stands behind the token's
-- last colon: so an address of IPv6, which has colons of its own, is read correctly. The number is
-- below 2^31, where atoi is defined.
pub first_address-decimal :
    (before : List Bytes) (address : Bytes) (n : ℕ) (after : List Bytes)
    → All (λ token. has_byte b':' token ≡ false) before
    → n < 2 ^ 31
    → first_address (before ++ (address ++ b':' ∷ decimal n) ∷ after) ≡ some (pos n)
first_address-decimal [] address n after plain fits =
    first_address_here _ after (has_byte-append b':' address (decimal n))
    ∙ port_of-decimal b':' n address refl fits
first_address-decimal (token ∷ before) address n after (h, plain) fits =
    first_address_later token _ h ∙ first_address-decimal before address n after plain fits

-- A line of `netstat` gives the port behind the last dot of its fourth token, whatever the address
-- before it holds. The number is below 2^31.
pub fourth_field-decimal :
    (a b c address : Bytes) (n : ℕ) (after : List Bytes)
    → n < 2 ^ 31
    → fourth_field 0 (a ∷ b ∷ c ∷ (address ++ b'.' ∷ decimal n) ∷ after) ≡ some (pos n)
unfolding fourth_field
fourth_field-decimal a b c address n after fits = port_of-decimal b'.' n address refl fits
