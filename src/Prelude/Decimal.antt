-- ===== src/Prelude/Decimal.antt =====
-- Numbers as sprintf's %d writes them, and that strtol reads them back.
use multi_test.Prelude.{
  ℕ, zero, suc, ◌+◌, ◌*◌, ◌/◌, ◌%◌, ◌≤◌, ◌<◌, ◌≡◌, refl, ap, ◌∙◌, arith, true, false, [], ◌∷◌, ◌==◌,
  if◌then◌else◌, Bool-cases, inl, inr,
}
use multi_test.Prelude.Int.{ℤ, pos, negsuc}
use multi_test.Prelude.Text.{Bytes}
use multi_test.Prelude.Strtol.{strtol, read_digits, long_max, clamp_long, digit_value}

-- The digits of `n` in front of `acc`, one for each unit of fuel at most.
unfoldable pub print_digits : ℕ → ℕ → Bytes → Bytes
print_digits zero n acc = acc
print_digits (suc fuel) n acc =
    let more = print_digits fuel (n / 10) ((b'0' + n % 10) ∷ acc) in
    if n / 10 == 0 then (b'0' + n % 10) ∷ acc else more

-- The fuel n + 1 is enough, since n / 10 < n at each digit but the last.
unfoldable pub print_dec : ℕ → Bytes
unfolding print_digits
print_dec n = print_digits (suc n) n []

-- %d
unfoldable pub print_int : ℤ → Bytes
unfolding print_dec
print_int (pos n) = print_dec n
print_int (negsuc n) = b'-' ∷ print_dec (suc n)

digit_value-print : (d : ℕ) → d < 10 → digit_value (b'0' + d) ≡ d
digit_value-print d h = ground arith

read_digits-digit :
    (v d : ℕ) (acc : Bytes)
    → d < 10
    → read_digits 10 v ((b'0' + d) ∷ acc) ≡ read_digits 10 (v * 10 + d) acc
unfolding read_digits
read_digits-digit v d acc h = rw (digit_value-print d h) (ground arith)

-- Reading the digits of `n` is scaling by what they hold.
read_digits-print :
    (fuel n : ℕ) (acc : Bytes)
    → n < fuel
    → read_digits 10 0 (print_digits fuel n acc) ≡ read_digits 10 n acc
unfolding print_digits
read_digits-print zero n acc h = absurd (omega arith)
read_digits-print (suc fuel) n acc h = elim (Bool-cases (n / 10 == 0)) [
  | inl e ↦
      rw e
        (read_digits-digit 0 (n % 10) acc (omega arith) ∙ ap (λ k. read_digits 10 k acc) (small e))
  | inr e ↦ rw e (
      read_digits-print fuel (n / 10) ((b'0' + n % 10) ∷ acc) (below e)
      ∙ read_digits-digit (n / 10) (n % 10) acc (omega arith)
      ∙ ap (λ k. read_digits 10 k acc) (omega arith))
]
  where
    small : (n / 10 == 0) ≡ true → 0 * 10 + n % 10 ≡ n
    small e = ground arith

    below : (n / 10 == 0) ≡ false → n / 10 < fuel
    below e = ground arith

-- The text of a number begins with a digit.
print_digits-starts :
    (fuel n : ℕ) (acc : Bytes)
    → (d : ℕ) × (rest : Bytes) × (print_digits (suc fuel) n acc ≡ (b'0' + d) ∷ rest) × (d < 10)
unfolding print_digits
print_digits-starts zero n acc = (n % 10, acc, ground arith, omega arith)
print_digits-starts (suc fuel) n acc = elim (Bool-cases (n / 10 == 0)) [
  | inl e ↦ (n % 10, acc, rw e, omega arith)
  | inr e ↦
      let (d, rest, eq, lt) = print_digits-starts fuel (n / 10) ((b'0' + n % 10) ∷ acc) in
      (d, rest, rw e eq, lt)
]

pub print_dec-starts :
    (n : ℕ) → (d : ℕ) × (rest : Bytes) × (print_dec n ≡ (b'0' + d) ∷ rest) × (d < 10)
unfolding print_dec
print_dec-starts n = print_digits-starts n n []

strtol-digit :
    (d : ℕ) (rest : Bytes)
    → d < 10
    → (strtol 10 ((b'0' + d) ∷ rest)).0 ≡ clamp_long false (read_digits 10 0 ((b'0' + d) ∷ rest)).0
unfolding strtol
strtol-digit d rest h = ground arith

-- strtol reads back what %d writes, for every number that a 32-bit `long` holds.
pub strtol-print_dec : (n : ℕ) → n ≤ long_max → (strtol 10 (print_dec n)).0 ≡ pos n
unfolding print_dec
strtol-print_dec n h =
    let (d, rest, eq, lt) = print_digits-starts n n [] in
    let v = read_digits-print (suc n) n [] (omega arith) in
    let read : (read_digits 10 0 ((b'0' + d) ∷ rest)).0 ≡ n =
      ap (λ p. p.0) (rw eq at v ∙ empty n) in
    rw (eq, print_dec) (strtol-digit d rest lt ∙ ap (clamp_long false) read ∙ fits)
  where
    empty : (k : ℕ) → read_digits 10 k [] ≡ (k, [])
    empty k = unfold read_digits in refl

    fits : clamp_long false n ≡ pos n
    fits = ground arith
