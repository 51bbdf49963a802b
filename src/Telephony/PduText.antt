-- ===== src/Telephony/PduText.antt =====
-- The text that `smsc_to_pdu` writes (tel_test/ls_telephony_util.cpp).
use multi_test.Prelude.{
  ℕ, suc, ◌+◌, ◌-◌, ◌/◌, ◌%◌, ◌≤◌, ◌≡◌, ◌≢◌, refl, sym, ap, ◌∙◌, true, false, [], ◌∷◌, ◌++◌, some,
  arith, ◌==◌, if◌then◌else◌, length, drop, Bool-cases, inl, inr, length-replicate, drop-replicate,
}
use multi_test.Prelude.Int.{pos}
use multi_test.Prelude.Text.{Bytes, codes, c_str}
use multi_test.Prelude.Fault.{◌>>=◌}
use multi_test.Prelude.Buffer.{
  store_at, string_at, IsText, c_str-append, has_end-append, zeros, zeros-split, store_at-append,
}
use mathlib.Core.List.{append_assoc}
use multi_test.Telephony.Pdu.{swap_pairs, pad, write_pdu, smsc_to_pdu}

-- A reader of such a number: the pairs are exchanged back, up to the filler.
abbrev pub read_pairs : Bytes → Bytes
read_pairs [] = []
read_pairs (a ∷ []) = a ∷ []
read_pairs (b ∷ a ∷ s) = if b == b'F' then a ∷ [] else a ∷ b ∷ read_pairs s

abbrev pub read_pdu : Bytes → Bytes
read_pdu pdu = read_pairs (drop 4 pdu)

-- A number's bytes: none is the end of a string or the filler.
abbrev pub IsNumber : Bytes → Type 0
IsNumber [] = Unit
IsNumber (c ∷ cs) = (c ≢ 0) × (c ≢ b'F') × IsNumber cs

-- A number, filled up to an even length.
pub filled : Bytes → Bytes
filled [] = []
filled (a ∷ []) = a ∷ b'F' ∷ []
filled (a ∷ b ∷ s) = a ∷ b ∷ filled s

pub filled-even : (s : Bytes) → (length s % 2 == 0) ≡ true → filled s ≡ s
unfolding filled
filled-even [] h = refl
filled-even (a ∷ []) h = ground arith
filled-even (a ∷ b ∷ s) h = ap (λ t. a ∷ b ∷ t) (filled-even s (ground arith))

filled-odd : (s : Bytes) → (length s % 2 == 0) ≡ false → filled s ≡ s ++ b'F' ∷ []
unfolding filled
filled-odd [] h = ground arith
filled-odd (a ∷ []) h = refl
filled-odd (a ∷ b ∷ s) h = ap (λ t. a ∷ b ∷ t) (filled-odd s (ground arith))

-- Its exchanged pairs.
pub swapped : Bytes → Bytes
swapped [] = []
swapped (a ∷ []) = b'F' ∷ a ∷ []
swapped (a ∷ b ∷ s) = b ∷ a ∷ swapped s

swap_pairs-filled :
    (s rest : Bytes) → swap_pairs (length (filled s) / 2) (filled s ++ rest) ≡ swapped s ++ rest
unfolding swap_pairs filled swapped
swap_pairs-filled [] rest = refl
swap_pairs-filled (a ∷ []) rest = refl
swap_pairs-filled (a ∷ b ∷ s) rest =
    let e : suc (suc (length (filled s))) / 2 ≡ suc (length (filled s) / 2) = omega arith in
    rw e (ap (λ t. b ∷ a ∷ t) (swap_pairs-filled s rest))

read_pairs-swapped : (s : Bytes) → IsNumber s → read_pairs (swapped s) ≡ s
unfolding swapped
read_pairs-swapped [] h = refl
read_pairs-swapped (a ∷ []) h = refl
read_pairs-swapped (a ∷ b ∷ s) h = ground (arith, read_pairs-swapped s h.2.2)

filled-IsText : (s : Bytes) → IsNumber s → IsText (filled s)
unfolding filled
filled-IsText [] h = tt
filled-IsText (a ∷ []) h = ground arith
filled-IsText (a ∷ b ∷ s) h = (h.0, (h.2.0, filled-IsText s h.2.2))

swapped-IsText : (s : Bytes) → IsNumber s → IsText (swapped s)
unfolding swapped
swapped-IsText [] h = tt
swapped-IsText (a ∷ []) h = ground arith
swapped-IsText (a ∷ b ∷ s) h = (h.2.0, (h.0, swapped-IsText s h.2.2))

pub copied :
    (n : ℕ) (s : Bytes)
    → 4 + length s ≤ n
    → store_at (zeros n) 4 s ≡ some (zeros 4 ++ (s ++ zeros (n - 4 - length s)))
copied n s h = rw (zeros-split 4 n (omega arith)) (
    store_at-append (zeros 4) s (zeros (n - 4)) 4 refl
      (omega (arith, length-replicate {A = ℕ} (n - 4) 0))
    ∙ ap (λ r. some (zeros 4 ++ (s ++ r))) (drop-replicate (length s) (n - 4) 0))

pad-filled :
    (m : ℕ) (s : Bytes)
    → pad (length s) (zeros 4 ++ (s ++ zeros (suc (suc m))))
      ≡ some (zeros 4 ++ (filled s ++ 0 ∷ zeros (if length s % 2 == 0 then suc m else m)))
pad-filled m s = elim (Bool-cases (length s % 2 == 0)) [
  | inl e ↦ rw (e, filled-even s e) refl
  | inr e ↦
      let store =
        store_at-append (zeros 4 ++ s) (b'F' ∷ 0 ∷ []) (zeros (suc (suc m))) (4 + length s)
          (omega arith) (omega arith) in
      rw (e, filled-odd s e)
        (store ∙ ap (λ t. some (zeros 4 ++ t)) (sym (append_assoc s (b'F' ∷ []) (0 ∷ zeros m))))
]

pub swap_text :
    (s r : Bytes)
    → IsNumber s
    → (string_at (zeros 4 ++ (filled s ++ 0 ∷ r)) 4 >>= λ text.
        some (codes "0891" ++ swap_pairs (length text / 2) (filled s ++ 0 ∷ r)))
      ≡ some (codes "0891" ++ (swapped s ++ 0 ∷ r))
swap_text s r d = ground (
  arith,
  has_end-append (filled s) r,
  c_str-append (filled s) r (filled-IsText s d),
  swap_pairs-filled s (0 ∷ r),
)

-- In an array of zeros that holds the number, its code, the filler and the end, the text written is
-- the code and the number in a PDU's order.
pub write_pdu-zeros :
    (n : ℕ) (s : Bytes)
    → IsNumber s
    → 4 + length s + 2 ≤ n
    → (pdu : Bytes) × (write_pdu s (zeros n) ≡ some pdu) × (read_pdu (c_str pdu) ≡ s)
unfolding write_pdu
write_pdu-zeros n s d h =
    let m : ℕ = n - 6 - length s in
    let r : Bytes = zeros (if length s % 2 == 0 then suc m else m) in
    let e : n - 4 - length s ≡ suc (suc m) = omega arith in
    (
      codes "0891" ++ (swapped s ++ 0 ∷ r),
      rw (copied n s (omega arith), e, pad-filled m s) (swap_text s r d),
      ground (arith, c_str-append (swapped s) r (swapped-IsText s d), read_pairs-swapped s d),
    )

-- `smsc_to_pdu` gives 0 and the number, in a PDU's order, if the array and its given size have room.
pub smsc_to_pdu-read :
    (c n len : ℕ) (s : Bytes)
    → IsNumber s
    → 4 + length s + 2 ≤ n
    → 16 ≤ len
    → (pdu : Bytes) × (smsc_to_pdu (some (c ∷ s)) (zeros n) (pos len) ≡ some (pos 0, pdu))
      × (read_pdu (c_str pdu) ≡ s)
unfolding smsc_to_pdu
smsc_to_pdu-read c n len s d h k =
    let (pdu, e, read) = write_pdu-zeros n s d h in (pdu, ground (arith, e), read)
