-- ===== src/CString.antt =====
-- The C library's string functions, as far as the programs use them. A string is its bytes up to
-- the NUL. `atoi` is taken without a bound: C leaves it undefined where the number does not fit an
-- int.
pub mod Decimal
pub mod Address
pub mod Scan
use Prim.Native.Char.{code}
use microkernel_benchmark.Prelude.{
  ℕ, ◌+◌, ◌-◌, ◌*◌, ◌/◌, ◌%◌, ◌^◌, zero, suc, String, List, [], ◌∷◌, ◌++◌, Option, none, some, Bool,
  true, false, ◌&&◌, ◌||◌, leb, ◌==◌, if◌then◌else◌,
}
use microkernel_benchmark.Prelude.Int.{ℤ, pos, ◌-ℤ◌}

abbrev pub Bytes : Type 0
Bytes = List ℕ

-- The bytes of an ASCII literal.
abbrev pub codes : String → Bytes
codes String.[] = []
codes (String.◌∷◌ c s) = code c ∷ codes s

-- strchr(s, c) != NULL
unfoldable pub has_byte : ℕ → Bytes → Bool
has_byte c [] = false
has_byte c (x ∷ xs) = x == c || has_byte c xs

-- strrchr(s, c) + 1
unfoldable pub after_last : ℕ → Bytes → Option Bytes
after_last c [] = none
after_last c (x ∷ xs) = elim (after_last c xs) [
  | some rest ↦ some rest
  | none ↦ if x == c then some xs else none
]

-- strncmp(s, prefix, strlen(prefix)) == 0
unfoldable pub has_prefix : Bytes → Bytes → Bool
has_prefix [] s = true
has_prefix (p ∷ ps) [] = false
has_prefix (p ∷ ps) (x ∷ xs) = p == x && has_prefix ps xs

-- strstr(s, needle) != NULL
unfoldable pub has_text : Bytes → Bytes → Bool
unfolding has_prefix
has_text needle [] = has_prefix needle []
has_text needle (x ∷ xs) = has_prefix needle (x ∷ xs) || has_text needle xs

-- The strings that strtok(s, sep) and strtok(NULL, sep) give in turn; `word` is the token under
-- way.
unfoldable pub tokens_from : ℕ → Bytes → Bytes → List Bytes
tokens_from sep [] [] = []
tokens_from sep (w ∷ word) [] = (w ∷ word) ∷ []
tokens_from sep [] (x ∷ xs) = elim (x == sep) [
  | true ↦ tokens_from sep [] xs
  | false ↦ tokens_from sep (x ∷ []) xs
]
tokens_from sep (w ∷ word) (x ∷ xs) = elim (x == sep) [
  | true ↦ (w ∷ word) ∷ tokens_from sep [] xs
  | false ↦ tokens_from sep (w ∷ (word ++ x ∷ [])) xs
]

unfoldable pub tokens : ℕ → Bytes → List Bytes
unfolding tokens_from
tokens sep = tokens_from sep []

abbrev pub is_digit : ℕ → Bool
is_digit c = leb b'0' c && leb c b'9'

abbrev pub is_space : ℕ → Bool
is_space c = c == 32 || (leb 9 c && leb c 13)

-- The digits at the front, behind the value so far.
unfoldable pub leading_value : ℕ → Bytes → ℕ
leading_value n [] = n
leading_value n (c ∷ cs) =
    let more = leading_value (n * 10 + (c - b'0')) cs in if is_digit c then more else n

unfoldable pub signed_value : Bytes → ℤ
unfolding leading_value ◌-ℤ◌
signed_value [] = pos 0
signed_value (c ∷ cs) =
    if c == b'-'
    then pos 0 -ℤ pos (leading_value 0 cs)
    else if c == b'+'
    then pos (leading_value 0 cs)
    else pos (leading_value 0 (c ∷ cs))

unfoldable pub atoi : Bytes → ℤ
unfolding signed_value
atoi [] = pos 0
atoi (c ∷ cs) = let rest = atoi cs in if is_space c then rest else signed_value (c ∷ cs)

-- The decimal digits of `n`, at most `fuel` of them, in front of `acc`.
unfoldable pub digits : ℕ → ℕ → Bytes → Bytes
digits zero n acc = acc
digits (suc fuel) n acc = elim (n / 10 == 0) [
  | true ↦ (b'0' + n % 10) ∷ acc
  | false ↦ digits fuel (n / 10) ((b'0' + n % 10) ∷ acc)
]

-- snprintf(s, size, "%llu", n): a number below 2^64 has 20 digits at most.
unfoldable pub decimal : ℕ → Bytes
unfolding digits
decimal n = digits 20 n []

abbrev pub capped : ℕ → ℕ
capped n = if leb (2 ^ 64) n then 2 ^ 64 - 1 else n

-- The value of strtoull behind the blanks: what does not fit is ULLONG_MAX, and a minus negates.
unfoldable pub unsigned_value : Bytes → ℕ
unfolding leading_value
unsigned_value [] = 0
unsigned_value (c ∷ cs) =
    if c == b'-'
    then (2 ^ 64 - capped (leading_value 0 cs)) % 2 ^ 64
    else if c == b'+'
    then capped (leading_value 0 cs)
    else capped (leading_value 0 (c ∷ cs))

-- strtoull(s, NULL, 10)
unfoldable pub strtoull : Bytes → ℕ
unfolding unsigned_value
strtoull [] = 0
strtoull (c ∷ cs) = let rest = strtoull cs in if is_space c then rest else unsigned_value (c ∷ cs)
