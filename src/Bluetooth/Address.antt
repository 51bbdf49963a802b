-- ===== src/Bluetooth/Address.antt =====
-- Addresses and bytes (bt_test/zib_bluetooth.c): `str2bd`, `bd2str`, `get_bdaddr`, `set_uuid`,
-- `intToByte`. `char` is unsigned on the target, as in its ABI.
use multi_test.Prelude.{
  ℕ, zero, suc, ◌+◌, ◌-◌, ◌*◌, ◌/◌, ◌%◌, ◌^◌, ◌<◌, not, ◌&&◌, [], ◌∷◌, ◌++◌, Option, none, some,
  ◌≡◌, arith, ltb, ◌==◌, if◌then◌else◌, replicate, length,
}
use mathlib.Core.Path.{subst}
use multi_test.Prelude.Int.{ℤ, pos, negsuc}
use multi_test.Prelude.Text.{Bytes}
use multi_test.Prelude.Fault.{◌>>=◌}
use multi_test.Prelude.Strtol.{strtoul, strtol}

abbrev pub tail : Bytes → Bytes
tail [] = []
tail (c ∷ cs) = cs

-- The bytes read in `n` rounds of `str2bd`: each number is cast to uint8_t, and the byte behind it
-- is skipped. None: the 0 at the end is skipped, and the next round reads behind the text.
unfoldable pub str2bd_rounds : ℕ → Bytes → Option Bytes
str2bd_rounds zero s = some []
str2bd_rounds (suc n) s =
    let (v, rest) = strtoul 16 s in
    let more = str2bd_rounds n (tail rest) >>= λ bs. some ((v % 256) ∷ bs) in
    if length rest == 0 && not (n == 0) then none else more

unfoldable pub str2bd : Bytes → Option Bytes
unfolding str2bd_rounds
str2bd s = str2bd_rounds 6 s

-- A digit of %x.
abbrev pub hex_digit : ℕ → ℕ
hex_digit d = if ltb d 10 then b'0' + d else b'a' + (d - 10)

-- %02x of a byte.
abbrev pub hex2 : ℕ → Bytes
hex2 b = hex_digit (b / 16) ∷ hex_digit (b % 16) ∷ []

-- The bytes with colons between them.
unfoldable pub bd2str : Bytes → Bytes
bd2str [] = []
bd2str (b ∷ []) = hex2 b
bd2str (b ∷ c ∷ bs) = hex2 b ++ b':' ∷ bd2str (c ∷ bs)

abbrev pub AreBytes : Bytes → Type 0
AreBytes [] = Unit
AreBytes (b ∷ bs) = (b < 256) × AreBytes bs

strtoul-last :
    (a b : ℕ) → a < 16 → b < 16 → strtoul 16 (hex_digit a ∷ hex_digit b ∷ []) ≡ (a * 16 + b, [])
unfolding strtoul
strtoul-last a b h k = ground arith

strtoul-colon :
    (a b : ℕ) (rest : Bytes)
    → a < 16
    → b < 16
    → strtoul 16 (hex_digit a ∷ hex_digit b ∷ b':' ∷ rest) ≡ (a * 16 + b, b':' ∷ rest)
unfolding strtoul
strtoul-colon a b rest h k = ground arith

str2bd_rounds-bd2str :
    (b : ℕ) (bs : Bytes)
    → AreBytes (b ∷ bs)
    → str2bd_rounds (length (b ∷ bs)) (bd2str (b ∷ bs)) ≡ some (b ∷ bs)
unfolding str2bd_rounds bd2str
str2bd_rounds-bd2str b [] h =
    ground (arith, strtoul-last (b / 16) (b % 16) (omega arith) (omega arith))
str2bd_rounds-bd2str b (c ∷ bs) h = ground (
  arith,
  strtoul-colon (b / 16) (b % 16) (bd2str (c ∷ bs)) (omega arith) (omega arith),
  str2bd_rounds-bd2str c bs h.1,
)

-- `str2bd` reads back the six bytes that `bd2str` writes.
pub str2bd-bd2str :
    (addr : Bytes) → AreBytes addr → length addr ≡ 6 → str2bd (bd2str addr) ≡ some addr
unfolding str2bd
str2bd-bd2str [] h l = absurd (omega arith)
str2bd-bd2str (b ∷ bs) h l =
    subst (λ n. str2bd_rounds n (bd2str (b ∷ bs)) ≡ some (b ∷ bs)) l (str2bd_rounds-bd2str b bs h)

-- The cast of a `long` to `char`.
abbrev pub cast_char : ℤ → ℕ
cast_char (pos n) = n % 256
cast_char (negsuc n) = 255 - n % 256

abbrev pub head_or_0 : Bytes → ℕ
head_or_0 [] = 0
head_or_0 (c ∷ cs) = c

-- The loop of `get_bdaddr`, by the rounds that are left: none where it clears the address.
unfoldable pub bdaddr_rounds : ℕ → Bytes → Option Bytes
bdaddr_rounds zero s = some []
bdaddr_rounds (suc n) s =
    let (v, rest) = strtol 16 s in
    let more = bdaddr_rounds n (tail rest) in
    if not (head_or_0 rest == b':') && not (n == 0)
    then none
    else elim more [ none ↦ none | some bs ↦ some (cast_char v ∷ bs) ]

unfoldable pub get_bdaddr : Bytes → Bytes
unfolding bdaddr_rounds
get_bdaddr s = elim (bdaddr_rounds 6 s) [ none ↦ replicate 6 0 | some bs ↦ bs ]

strtol-last :
    (a b : ℕ)
    → a < 16
    → b < 16
    → strtol 16 (hex_digit a ∷ hex_digit b ∷ []) ≡ (pos (a * 16 + b), [])
unfolding strtol
strtol-last a b h k = ground arith

strtol-colon :
    (a b : ℕ) (rest : Bytes)
    → a < 16
    → b < 16
    → strtol 16 (hex_digit a ∷ hex_digit b ∷ b':' ∷ rest) ≡ (pos (a * 16 + b), b':' ∷ rest)
unfolding strtol
strtol-colon a b rest h k = ground arith

bdaddr_rounds-bd2str :
    (b : ℕ) (bs : Bytes)
    → AreBytes (b ∷ bs)
    → bdaddr_rounds (length (b ∷ bs)) (bd2str (b ∷ bs)) ≡ some (b ∷ bs)
unfolding bdaddr_rounds bd2str
bdaddr_rounds-bd2str b [] h =
    ground (arith, strtol-last (b / 16) (b % 16) (omega arith) (omega arith))
bdaddr_rounds-bd2str b (c ∷ bs) h = ground (
  arith,
  strtol-colon (b / 16) (b % 16) (bd2str (c ∷ bs)) (omega arith) (omega arith),
  bdaddr_rounds-bd2str c bs h.1,
)

-- `get_bdaddr` reads back the six bytes that `bd2str` writes.
pub get_bdaddr-bd2str :
    (addr : Bytes) → AreBytes addr → length addr ≡ 6 → get_bdaddr (bd2str addr) ≡ addr
unfolding get_bdaddr
get_bdaddr-bd2str [] h l = absurd (omega arith)
get_bdaddr-bd2str (b ∷ bs) h l = ground (
  arith,
  subst (λ n. bdaddr_rounds n (bd2str (b ∷ bs)) ≡ some (b ∷ bs)) l (bdaddr_rounds-bd2str b bs h),
)

-- `(v >> (8 * i)) & 0xFF`
abbrev pub byte_at : ℕ → ℕ → ℕ
byte_at v i = v / 2 ^ (8 * i) % 256

-- The bytes that `set_uuid` stores for one half, from index `i` on.
unfoldable pub half_bytes : ℕ → ℕ → ℕ → Bytes
half_bytes v i zero = []
half_bytes v i (suc n) = byte_at v i ∷ half_bytes v (i + 1) n

-- The low half stands first.
unfoldable pub set_uuid : ℕ → ℕ → Bytes
unfolding half_bytes
set_uuid msb lsb = half_bytes lsb 0 8 ++ half_bytes msb 0 8

-- `intToByte`: the four bytes that it stores, the lowest first.
unfoldable pub int_to_byte : ℕ → Bytes
int_to_byte i =
    (i % 256) ∷ (i % 0x10000 / 256) ∷ (i % 0x1000000 / 0x10000) ∷ (i / 0x1000000 % 256) ∷ []

-- The number whose bytes stand in a list, the lowest first.
abbrev pub from_bytes : Bytes → ℕ
from_bytes [] = 0
from_bytes (b ∷ bs) = b + 256 * from_bytes bs

-- The sixteen bytes of a UUID hold its two 64-bit halves, the low half first.
pub from_bytes-set_uuid :
    (msb lsb : ℕ) → lsb < 2 ^ 64 → msb < 2 ^ 64 → from_bytes (set_uuid msb lsb) ≡ msb * 2 ^ 64 + lsb
unfolding set_uuid
from_bytes-set_uuid msb lsb h k = omega arith

pub from_bytes-int_to_byte : (i : ℕ) → i < 2 ^ 32 → from_bytes (int_to_byte i) ≡ i
unfolding int_to_byte
from_bytes-int_to_byte i h = omega arith
