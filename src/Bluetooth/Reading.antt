-- ===== src/Bluetooth/Reading.antt =====
-- What the console helpers read (bt_test/zib_bluetooth.c).
use multi_test.Prelude.{
  ℕ, zero, suc, ◌+◌, ◌-◌, ◌*◌, ◌/◌, ◌%◌, ◌<◌, true, false, [], ◌∷◌, ◌++◌, ◌≡◌, ◌≢◌, refl, sym, ◌∙◌,
  ap, arith, ◌==◌, if◌then◌else◌, replicate, Bool-cases, inl, inr,
}
use multi_test.Prelude.Text.{Bytes}
use multi_test.Prelude.Decimal.{print_digits, print_dec, print_dec-starts}
use multi_test.Bluetooth.Console.{
  skip_blanks, is_digit, begins, u32_mod, int_digits, get_int, str_word, get_str,
}

skip_blanks-replicate : (k : ℕ) (s : Bytes) → skip_blanks (replicate k b' ' ++ s) ≡ skip_blanks s
skip_blanks-replicate zero s = refl
skip_blanks-replicate (suc k) s = skip_blanks-replicate k s

int_digits-digit :
    (v d : ℕ) (s : Bytes)
    → d < 10
    → int_digits v ((b'0' + d) ∷ s) ≡ int_digits ((v * 10 + d) % u32_mod) s
unfolding int_digits
int_digits-digit v d s h = let e : b'0' + d - b'0' ≡ d = omega arith in rw e (ground arith)

int_digits-print :
    (fuel n : ℕ) (acc rest : Bytes)
    → n < fuel
    → int_digits 0 (print_digits fuel n acc ++ rest) ≡ int_digits (n % u32_mod) (acc ++ rest)
unfolding print_digits
int_digits-print zero n acc rest h = absurd (omega arith)
int_digits-print (suc fuel) n acc rest h = elim (Bool-cases (n / 10 == 0)) [
  | inl e ↦ rw e (
      int_digits-digit 0 (n % 10) (acc ++ rest) (omega arith)
      ∙ ap (λ k. int_digits k (acc ++ rest)) (small e))
  | inr e ↦ rw e (
      int_digits-print fuel (n / 10) ((b'0' + n % 10) ∷ acc) rest (below e)
      ∙ int_digits-digit (n / 10 % u32_mod) (n % 10) (acc ++ rest) (omega arith)
      ∙ ap (λ k. int_digits k (acc ++ rest)) (omega arith))
]
  where
    small : (n / 10 == 0) ≡ true → (0 * 10 + n % 10) % u32_mod ≡ n % u32_mod
    small e = ground arith

    below : (n / 10 == 0) ≡ false → n / 10 < fuel
    below e = ground arith

-- A text that does not go on with a digit.
abbrev pub EndsNumber : Bytes → Type 0
EndsNumber s = begins is_digit s ≡ false

int_digits-stop : (v : ℕ) (s : Bytes) → EndsNumber s → int_digits v s ≡ (v, s)
unfolding int_digits
int_digits-stop v [] h = refl
int_digits-stop v (c ∷ s) h = ground arith

get_int-digit :
    (k d default : ℕ) (s : Bytes)
    → d < 10
    → get_int default (replicate k b' ' ++ (b'0' + d) ∷ s) ≡ int_digits 0 ((b'0' + d) ∷ s)
unfolding get_int
get_int-digit k d default s h = rw (skip_blanks-replicate k ((b'0' + d) ∷ s)) (at_digit)
  where
    at_digit :
        (if begins is_digit (skip_blanks ((b'0' + d) ∷ s))
          then int_digits 0 (skip_blanks ((b'0' + d) ∷ s))
          else (default, skip_blanks ((b'0' + d) ∷ s)))
        ≡ int_digits 0 ((b'0' + d) ∷ s)
    at_digit = ground arith

-- `get_int` skips the blanks and reads a decimal number modulo 2 ^ 32, and leaves the text behind
-- it, which does not go on with a digit.
pub get_int-print_dec :
    (k n default : ℕ) (rest : Bytes)
    → EndsNumber rest
    → get_int default (replicate k b' ' ++ (print_dec n ++ rest)) ≡ (n % u32_mod, rest)
get_int-print_dec k n default rest h =
    let (d, tail, eq, lt) = print_dec-starts n in
    let e : print_dec n ++ rest ≡ (b'0' + d) ∷ (tail ++ rest) = ap (λ l. l ++ rest) eq in
    rw e (get_int-digit k d default (tail ++ rest) lt) ∙ (ap (int_digits 0) (sym e) ∙ read)
  where
    read : int_digits 0 (print_dec n ++ rest) ≡ (n % u32_mod, rest)
    read =
        unfold print_dec in
        (int_digits-print (suc n) n [] rest (omega arith) ∙ int_digits-stop (n % u32_mod) rest h)

-- A word: no blank, and no byte that ends the string.
abbrev pub IsWord : Bytes → Type 0
IsWord [] = Unit
IsWord (c ∷ cs) = (c ≢ b' ') × IsWord cs

str_word-append : (w rest : Bytes) → IsWord w → str_word (w ++ b' ' ∷ rest) ≡ (w, b' ' ∷ rest)
unfolding str_word
str_word-append [] rest h = refl
str_word-append (c ∷ w) rest h = ground (arith, str_word-append w rest h.1)

-- `get_str` skips the blanks and copies the word behind them, up to the next blank.
pub get_str-append :
    (k : ℕ) (c : ℕ) (w rest : Bytes)
    → IsWord (c ∷ w)
    → get_str (replicate k b' ' ++ (c ∷ w ++ b' ' ∷ rest)) ≡ (c ∷ w, b' ' ∷ rest)
unfolding get_str
get_str-append k c w rest h =
    rw (skip_blanks-replicate k (c ∷ w ++ b' ' ∷ rest))
      (ground (arith, str_word-append (c ∷ w) rest h))
