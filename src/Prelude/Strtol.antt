-- ===== src/Prelude/Strtol.antt =====
-- strtol, strtoul and atoi of <stdlib.h> on lists of bytes, for the 32-bit `long` of the target:
-- blanks, a sign, in base 16 an optional 0x, digits; the value is held within the type's range.
use multi_test.Prelude.{
  ℕ, ◌+◌, ◌-◌, ◌*◌, ◌^◌, ◌%◌, Bool, true, false, ◌&&◌, ◌||◌, [], ◌∷◌, Option, none, some, leb, ltb,
  ◌==◌, if◌then◌else◌,
}
use multi_test.Prelude.Int.{ℤ, pos, negsuc, sub_ℕ}
use multi_test.Prelude.Text.{Bytes}

abbrev pub is_space : ℕ → Bool
is_space c = c == b' ' || leb 9 c && leb c 13

abbrev pub skip_spaces : Bytes → Bytes
skip_spaces [] = []
skip_spaces (c ∷ cs) = if is_space c then skip_spaces cs else c ∷ cs

-- The value of a digit or letter, 36 for any other byte.
abbrev pub digit_value : ℕ → ℕ
digit_value c =
    if leb b'0' c && leb c b'9'
    then c - b'0'
    else if leb b'a' c && leb c b'z'
    then c - b'a' + 10
    else if leb b'A' c && leb c b'Z'
    then c - b'A' + 10
    else 36

abbrev pub is_digit_of : ℕ → ℕ → Bool
is_digit_of base c = ltb (digit_value c) base

-- The value of the leading digits behind `acc`, and the bytes behind them.
unfoldable pub read_digits : ℕ → ℕ → Bytes → ℕ × Bytes
read_digits base acc [] = (acc, [])
read_digits base acc (c ∷ cs) =
    let more = read_digits base (acc * base + digit_value c) cs in
    if is_digit_of base c then more else (acc, c ∷ cs)

abbrev pub starts_with_digit : ℕ → Bytes → Bool
starts_with_digit base [] = false
starts_with_digit base (c ∷ cs) = is_digit_of base c

-- The sign, and the bytes behind it.
abbrev pub read_sign : Bytes → Bool × Bytes
read_sign [] = (false, [])
read_sign (c ∷ cs) =
    if c == b'-' then (true, cs) else if c == b'+' then (false, cs) else (false, c ∷ cs)

-- 0x or 0X in front of a hexadecimal digit.
abbrev pub skip_0x : Bytes → Bytes
skip_0x [] = []
skip_0x (z ∷ []) = z ∷ []
skip_0x (z ∷ x ∷ cs) =
    if z == b'0' && (x == b'x' || x == b'X') && starts_with_digit 16 cs then cs else z ∷ x ∷ cs

abbrev pub skip_prefix : ℕ → Bytes → Bytes
skip_prefix base s = if base == 16 then skip_0x s else s

abbrev pub long_max : ℕ
long_max = 2 ^ 31 - 1

abbrev pub clamp_long : Bool → ℕ → ℤ
clamp_long false n = if leb n long_max then pos n else pos long_max
clamp_long true n = if leb n long_max then sub_ℕ 0 n else negsuc long_max

-- What stands in front of the digits, taken off: the sign and the rest, or none if no digit follows.
abbrev pub number_at : ℕ → Bytes → Option (Bool × Bytes)
number_at base s =
    let (neg, rest) = read_sign (skip_spaces s) in
    let body = skip_prefix base rest in
    if starts_with_digit base body then some (neg, body) else none

-- The value, and the bytes from `*endptr` on.
unfoldable pub strtol : ℕ → Bytes → ℤ × Bytes
unfolding read_digits
strtol base s = elim (number_at base s) [
  | none ↦ (pos 0, s)
  | some (neg, body) ↦ let (n, rest) = read_digits base 0 body in (clamp_long neg n, rest)
]

abbrev ulong_max : ℕ
ulong_max = 2 ^ 32 - 1

-- A sign negates modulo 2 ^ 32; a number out of range gives the greatest value.
abbrev clamp_ulong : Bool → ℕ → ℕ
clamp_ulong neg n = if leb n ulong_max then if neg then (2 ^ 32 - n) % 2 ^ 32 else n else ulong_max

unfoldable pub strtoul : ℕ → Bytes → ℕ × Bytes
unfolding read_digits
strtoul base s = elim (number_at base s) [
  | none ↦ (0, s)
  | some (neg, body) ↦ let (n, rest) = read_digits base 0 body in (clamp_ulong neg n, rest)
]

unfoldable pub atoi : Bytes → ℤ
unfolding strtol
atoi s = (strtol 10 s).0
