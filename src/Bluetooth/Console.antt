-- ===== src/Bluetooth/Console.antt =====
-- The console helpers (bt_test/zib_bluetooth.c): each takes the text at `*p` and gives its value and
-- the text that `*p` is moved to. The end of the list is the terminating 0.
use multi_test.Prelude.{
  ℕ, ◌+◌, ◌-◌, ◌*◌, ◌^◌, ◌%◌, Bool, true, false, ◌&&◌, ◌||◌, [], ◌∷◌, Option, none, some, leb, ◌==◌,
  if◌then◌else◌,
}
use multi_test.Prelude.Int.{ℤ, pos, sub_ℕ}
use multi_test.Prelude.Text.{Bytes}

abbrev pub skip_blanks : Bytes → Bytes
skip_blanks [] = []
skip_blanks (c ∷ cs) = if c == b' ' then skip_blanks cs else c ∷ cs

abbrev pub is_digit : ℕ → Bool
is_digit c = leb c b'9' && leb b'0' c

abbrev pub u32_mod : ℕ
u32_mod = 2 ^ 32

-- The digit loop of `get_int`: uint32_t arithmetic wraps.
unfoldable pub int_digits : ℕ → Bytes → ℕ × Bytes
int_digits v [] = (v, [])
int_digits v (c ∷ cs) =
    let more = int_digits ((v * 10 + (c - b'0')) % u32_mod) cs in
    if is_digit c then more else (v, c ∷ cs)

-- `UseDefault` is still set if the text does not begin with a digit.
abbrev pub begins : (ℕ → Bool) → Bytes → Bool
begins p [] = false
begins p (c ∷ cs) = p c

unfoldable pub get_int : ℕ → Bytes → ℕ × Bytes
unfolding int_digits
get_int default s =
    let t = skip_blanks s in if begins is_digit t then int_digits 0 t else (default, t)

abbrev pub int_max : ℕ
int_max = 2 ^ 31 - 1

-- The digit loop of `get_signed_int`; none is an overflow of `int`, which C leaves undefined.
unfoldable pub signed_digits : ℕ → Bytes → Option (ℕ × Bytes)
signed_digits v [] = some (v, [])
signed_digits v (c ∷ cs) =
    let more = signed_digits (v * 10 + (c - b'0')) cs in
    let fits = if leb (v * 10 + c) int_max then more else none in
    if is_digit c then fits else some (v, c ∷ cs)

abbrev pub signed_of : Bool → ℕ → ℤ
signed_of false v = pos v
signed_of true v = sub_ℕ 0 v

abbrev with_sign : Bool → ℤ → Bytes → Option (ℤ × Bytes)
with_sign negative default t =
    if begins is_digit t
    then elim (signed_digits 0 t) [
      | none ↦ none
      | some (v, rest) ↦ some (signed_of negative v, rest)
    ]
    else some (default, t)

abbrev read_minus : ℤ → Bytes → Option (ℤ × Bytes)
read_minus default [] = with_sign false default []
read_minus default (c ∷ cs) =
    if c == b'-' then with_sign true default cs else with_sign false default (c ∷ cs)

unfoldable pub get_signed_int : ℤ → Bytes → Option (ℤ × Bytes)
unfolding signed_digits
get_signed_int default s = read_minus default (skip_blanks s)

-- The copy loop of `get_str`.
unfoldable pub str_word : Bytes → Bytes × Bytes
str_word [] = ([], [])
str_word (c ∷ cs) =
    let (word, rest) = str_word cs in if c == b' ' then ([], c ∷ cs) else (c ∷ word, rest)

unfoldable pub get_str : Bytes → Bytes × Bytes
unfolding str_word
get_str s = str_word (skip_blanks s)

abbrev pub is_hex_digit : ℕ → Bool
is_hex_digit c = is_digit c || leb c b'f' && leb b'a' c || leb c b'F' && leb b'A' c

abbrev pub hex_value : ℕ → ℕ
hex_value c = if leb b'a' c then c - b'a' + 10 else if leb b'A' c then c - b'A' + 10 else c - b'0'

unfoldable pub hex_digits : ℕ → Bytes → ℕ × Bytes
hex_digits v [] = (v, [])
hex_digits v (c ∷ cs) =
    let more = hex_digits ((v * 16 + hex_value c) % u32_mod) cs in
    if is_hex_digit c then more else (v, c ∷ cs)

unfoldable pub get_hex : ℕ → Bytes → ℕ × Bytes
unfolding hex_digits
get_hex default s =
    let t = skip_blanks s in if begins is_hex_digit t then hex_digits 0 t else (default, t)
