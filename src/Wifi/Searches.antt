-- ===== src/Wifi/Searches.antt =====
-- The two searches in strings (ls_wifi_test.c: `wifiStrSkipSpace`, `wifiStrFindChar`), which the program
-- does not call. None is a fault: a read behind the end of the memory.
use multi_test.Prelude.{
  ℕ, ◌+◌, Bool, true, false, not, [], ◌∷◌, ◌++◌, Option, none, some, ◌≡◌, refl, arith,
  if◌then◌else◌, ltb, ◌==◌, length,
}
use multi_test.Prelude.Text.{Bytes}
use multi_test.Prelude.Fault.{◌>>=◌}

-- What a search returns: `(char*)-1`, NULL, or a pointer by its offset from `pfirst`.
pub data Found : Type 0 where
  minus_one null : Found
  offset : ℕ → Found

-- `while (goes_on(*pfirst++) && pfirst < plast)`, with `pfirst` at the offset `i` and `plast` at `last`;
-- the bytes are those of the memory from `pfirst` on.
unfoldable search_while : (ℕ → Bool) → ℕ → ℕ → Bytes → Option ℕ
search_while goes_on last i [] = none
search_while goes_on last i (c ∷ cs) =
    let more = search_while goes_on last (i + 1) cs in
    if goes_on c then (if ltb (i + 1) last then more else some (i + 1)) else some (i + 1)

-- The test behind the loop.
abbrev before : ℕ → ℕ → Found
before last i = if ltb i last then offset i else null

abbrev search : (ℕ → Bool) → ℕ → ℕ → Bytes → Option Found
search goes_on last i s = search_while goes_on last i s >>= λ j. some (before last j)

abbrev skip_space : Bytes → ℕ → Option Found
skip_space [] last = none
skip_space (c ∷ cs) last =
    let skipped = search (λ d. d == b' ') last 0 (c ∷ cs) in
    if c == b' ' then skipped else some minus_one

-- A pointer that is none is NULL.
unfoldable pub wifi_str_skip_space : Option Bytes → Option ℕ → Option Found
unfolding search_while
wifi_str_skip_space none last = some minus_one
wifi_str_skip_space (some s) none = some minus_one
wifi_str_skip_space (some s) (some last) = skip_space s last

unfoldable pub wifi_str_find_char : Option Bytes → Option ℕ → ℕ → Option Found
unfolding search_while
wifi_str_find_char none last val = some minus_one
wifi_str_find_char (some s) none val = some minus_one
wifi_str_find_char (some s) (some last) val = search (λ c. not (c == val)) last 0 s

-- Every byte of the text goes on.
abbrev AllGoOn : (ℕ → Bool) → Bytes → Type 0
AllGoOn goes_on [] = Unit
AllGoOn goes_on (c ∷ cs) = (goes_on c ≡ true) × AllGoOn goes_on cs

-- A search ends one behind the first byte that does not go on, if that is before `last`.
search-behind :
    (goes_on : ℕ → Bool) (text rest : Bytes) (c last i : ℕ)
    → AllGoOn goes_on text
    → goes_on c ≡ false
    → search goes_on last i (text ++ c ∷ rest) ≡ some (before last (i + length text + 1))
unfolding search_while
search-behind goes_on [] rest c last i h e = ground arith
search-behind goes_on (d ∷ text) rest c last i h e =
    ground (arith, search-behind goes_on text rest c last (i + 1) h.1 e)

-- `wifiStrFindChar` gives the place behind the first `val`, if that is before `plast`, else NULL.
wifi_str_find_char-behind :
    (text rest : Bytes) (val last : ℕ)
    → AllGoOn (λ c. not (c == val)) text
    → wifi_str_find_char (some (text ++ val ∷ rest)) (some last) val
      ≡ some (before last (length text + 1))
unfolding wifi_str_find_char
wifi_str_find_char-behind text rest val last h =
    ground (arith, search-behind (λ c. not (c == val)) text rest val last 0 h (ground arith))

-- `wifiStrSkipSpace` gives the place one behind the first byte that is not a blank, so that byte is
-- skipped too.
wifi_str_skip_space-behind :
    (blanks rest : Bytes) (c last : ℕ)
    → AllGoOn (λ d. d == b' ') blanks
    → (c == b' ') ≡ false
    → wifi_str_skip_space (some (b' ' ∷ blanks ++ c ∷ rest)) (some last)
      ≡ some (before last (length blanks + 2))
unfolding wifi_str_skip_space
wifi_str_skip_space-behind blanks rest c last h e =
    ground (arith, search-behind (λ d. d == b' ') (b' ' ∷ blanks) rest c last 0 (refl, h) e)
