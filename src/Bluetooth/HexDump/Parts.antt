-- ===== src/Bluetooth/HexDump/Parts.antt =====
-- The two parts of a row of `hex_dump` (bt_test/zib_bluetooth.c), and its array bounds.
use multi_test.Prelude.{
  ℕ, zero, suc, ◌+◌, ◌-◌, ◌*◌, ◌≤◌, ◌<◌, ◌≡◌, refl, ap, ◌∙◌, List, [], ◌∷◌, ◌++◌, arith,
  if◌then◌else◌, ◌==◌, length, take, drop, length-append, take-length_le,
}
use mathlib.Core.List.{append_assoc, append-nil}
use multi_test.Prelude.Text.{Bytes, codes}
use multi_test.Bluetooth.HexDump.{hex_byte, shown_char, address, append_text, dump_line}

-- The gap behind the eighth byte of a row.
abbrev pub space : Bytes → ℕ → Bytes
space gap i = if i == 7 then gap else []

-- A part of a row from column `i` on.
abbrev pub part : (ℕ → Bytes) → Bytes → ℕ → Bytes → Bytes
part f gap i [] = []
part f gap i (c ∷ cs) = f c ++ (space gap i ++ part f gap (i + 1) cs)

unfoldable pub hex_part : Bytes → Bytes
hex_part = part hex_byte (codes "  ") 0

unfoldable pub char_part : Bytes → Bytes
char_part = part (λ c. shown_char c ∷ []) (codes " ") 0

-- Row `k` of a dump.
unfoldable pub row : ℕ → Bytes → Bytes
row k bytes = dump_line (address (16 * k)) (hex_part bytes) (char_part bytes)

-- The rows from row `k` on; `fuel` is at least their number.
abbrev pub rows : ℕ → ℕ → Bytes → List Bytes
rows zero k bytes = []
rows (suc fuel) k [] = []
rows (suc fuel) k (c ∷ cs) = row k (take 16 (c ∷ cs)) ∷ rows fuel (k + 1) (drop 16 (c ∷ cs))

module _ (f : ℕ → Bytes) (gap : Bytes) where
  part-snoc :
      (i : ℕ) (s : Bytes) (c : ℕ)
      → part f gap i (s ++ c ∷ []) ≡ part f gap i s ++ (f c ++ space gap (i + length s))
  part-snoc i [] c =
      let e : i ≡ i + 0 = omega arith in
      ap (λ g. f c ++ g) (append-nil (space gap i)) ∙ ap (λ j. f c ++ space gap j) e
  part-snoc i (d ∷ s) c =
      let e : i + 1 + length s ≡ i + suc (length s) = omega arith in
      rw (part-snoc (i + 1) s c, e) (simp (append_assoc))

  length-part_late :
      (w : ℕ) (i : ℕ) (s : Bytes)
      → ((c : ℕ) → length (f c) ≡ w)
      → 7 < i
      → length (part f gap i s) ≡ w * length s
  length-part_late w i [] h l = omega arith
  length-part_late w i (c ∷ s) h l =
      ground
        (arith, h c, length-append (f c) (part f gap (i + 1) s), length-part_late w (i + 1) s h)

  length-part_le :
      (w : ℕ) (i : ℕ) (s : Bytes)
      → ((c : ℕ) → length (f c) ≡ w)
      → length (part f gap i s) ≤ w * length s + length gap
  length-part_le w i [] h = omega arith
  length-part_le w i (c ∷ s) h = ground (
    arith,
    h c,
    length-append (f c) (space gap i ++ part f gap (i + 1) s),
    length-append (space gap i) (part f gap (i + 1) s),
    length-part_late w (i + 1) s h,
    length-part_le w (i + 1) s h,
  )

-- A text that fits its array is appended whole.
pub append_text-fits :
    (size : ℕ) (s more : Bytes)
    → length s + length more < size
    → append_text size s more ≡ s ++ more
unfolding append_text
append_text-fits size s more h =
    ap (λ t. s ++ t) (take-length_le (size - length s - 1) more (omega arith))

pub hex_part-nil : hex_part [] ≡ []
unfolding hex_part
hex_part-nil = refl

pub char_part-nil : char_part [] ≡ []
unfolding char_part
char_part-nil = refl

pub hex_part-some : (c : ℕ) (s : Bytes) → 0 < length (hex_part (c ∷ s))
unfolding hex_part hex_byte
hex_part-some c s = omega arith

pub row_lem :
    (k : ℕ) (s : Bytes) → row k s ≡ dump_line (address (16 * k)) (hex_part s) (char_part s)
unfolding row
row_lem k s = refl

pub length-hex_byte : (c : ℕ) → length (hex_byte c) ≡ 3
unfolding hex_byte
length-hex_byte c = refl

pub length-hex_part : (s : Bytes) → length (hex_part s) ≤ 3 * length s + 2
unfolding hex_part
length-hex_part s = length-part_le hex_byte (codes "  ") 3 0 s length-hex_byte

pub length-char_part : (s : Bytes) → length (char_part s) ≤ length s + 1
unfolding char_part
length-char_part s =
    omega (arith, length-part_le (λ c. shown_char c ∷ []) (codes " ") 1 0 s (λ c. refl))

pub hex_part-snoc :
    (s : Bytes) (c : ℕ)
    → hex_part (s ++ c ∷ []) ≡ hex_part s ++ (hex_byte c ++ space (codes "  ") (length s))
unfolding hex_part
hex_part-snoc s c =
    let e : 0 + length s ≡ length s = omega arith in rw e at (part-snoc hex_byte (codes "  ") 0 s c)

pub char_part-snoc :
    (s : Bytes) (c : ℕ)
    → char_part (s ++ c ∷ []) ≡ char_part s ++ (shown_char c ∷ space (codes " ") (length s))
unfolding char_part
char_part-snoc s c =
    let e : 0 + length s ≡ length s = omega arith in
    rw e at (part-snoc (λ d. shown_char d ∷ []) (codes " ") 0 s c)
