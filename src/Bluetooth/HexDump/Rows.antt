-- ===== src/Bluetooth/HexDump/Rows.antt =====
-- What `hex_dump` logs (bt_test/zib_bluetooth.c): the rows of sixteen bytes.
use multi_test.Prelude.{
  ℕ, zero, suc, ◌+◌, ◌-◌, ◌*◌, ◌%◌, ◌≤◌, ◌<◌, ◌≡◌, refl, sym, ap, ◌∙◌, Bool, List, [], ◌∷◌, ◌++◌,
  arith, ◌==◌, length, Bool-cases, inl, inr, length-append, take-length_le, take-append_length,
  drop-append_length, drop-length_le,
}
use mathlib.Core.List.{append_assoc, append-nil}
use multi_test.Prelude.Text.{Bytes, codes}
use multi_test.Bluetooth.HexDump.{
  hex_byte, shown_char, address, hexstr_size, charstr_size, Dump, start_line, add_byte, end_byte,
  dump_byte, dump_bytes, truncated, first_line, end_dump, no_text, hex_dump,
}
use multi_test.Bluetooth.HexDump.Parts.{
  hex_part, char_part, row, rows, append_text-fits, hex_part-nil, char_part-nil, hex_part-some,
  row_lem, length-hex_byte, length-hex_part, length-char_part, hex_part-snoc, char_part-snoc,
}

-- The state of a line with the bytes `s`.
line_of : Bytes → Bytes → List Bytes → Dump
line_of addr s lines = record {
  addrstr = addr;
  hexstr = hex_part s;
  charstr = char_part s;
  lines = lines;
}

-- The same behind a byte more, without the gap.
with_byte : ℕ → Bytes → Bytes → List Bytes → Dump
with_byte c addr s lines = record {
  addrstr = addr;
  hexstr = hex_part s ++ hex_byte c;
  charstr = char_part s ++ shown_char c ∷ [];
  lines = lines;
}

-- A line that has begun has its row's address.
abbrev IsNamed : ℕ → Bytes → Bytes → Type 0
IsNamed k addr [] = Unit
IsNamed k addr (c ∷ s) = addr ≡ address (16 * k)

start_line-line_of :
    (k : ℕ) (addr s : Bytes) (lines : List Bytes)
    → length s < 16
    → IsNamed k addr s
    → start_line (16 * k + length s + 1) (line_of addr s lines) ≡ line_of (address (16 * k)) s lines
unfolding line_of
start_line-line_of k addr [] lines h e =
    let m : (16 * k + 0 + 1) % 16 ≡ 1 = omega arith in
    let a : 16 * k + 0 + 1 - 1 ≡ 16 * k = omega arith in rw m (rw a refl)
start_line-line_of k addr (c ∷ s) lines h e = ground arith

add_byte-line_of :
    (c : ℕ) (addr s : Bytes) (lines : List Bytes)
    → length s < 16
    → add_byte c (line_of addr s lines) ≡ with_byte c addr s lines
unfolding line_of with_byte
add_byte-line_of c addr s lines h = ground (
  arith,
  append_text-fits hexstr_size (hex_part s) (hex_byte c),
  append_text-fits charstr_size (char_part s) (shown_char c ∷ []),
  length-hex_part s,
  length-hex_byte c,
  length-char_part s,
)

-- Behind the sixteenth byte.
end_byte-full :
    (k c : ℕ) (addr s : Bytes) (lines : List Bytes)
    → length s ≡ 15
    → end_byte (16 * k + length s + 1) (with_byte c (address (16 * k)) s lines)
      ≡ line_of (address (16 * k)) [] (lines ++ row k (s ++ c ∷ []) ∷ [])
unfolding line_of with_byte row
end_byte-full k c addr s lines h = ground (
  arith,
  hex_part-nil,
  char_part-nil,
  hex_part-snoc s c,
  char_part-snoc s c,
  append-nil (hex_byte c),
)

-- Behind an earlier one.
end_byte-more :
    (k c : ℕ) (addr s : Bytes) (lines : List Bytes)
    → length s < 15
    → end_byte (16 * k + length s + 1) (with_byte c addr s lines) ≡ line_of addr (s ++ c ∷ []) lines
unfolding line_of with_byte
end_byte-more k c addr s lines h = ground (
  arith,
  hex_part-snoc s c,
  char_part-snoc s c,
  append-nil (hex_byte c),
  append_assoc (hex_part s) (hex_byte c) (codes "  "),
  append_assoc (char_part s) (shown_char c ∷ []) (codes " "),
  append_text-fits hexstr_size (hex_part s ++ hex_byte c) (codes "  "),
  append_text-fits charstr_size (char_part s ++ shown_char c ∷ []) (codes " "),
  length-append (hex_part s) (hex_byte c),
  length-append (char_part s) (shown_char c ∷ []),
  length-hex_part s,
  length-hex_byte c,
  length-char_part s,
)

dump_byte-full :
    (k c : ℕ) (addr s : Bytes) (lines : List Bytes)
    → length s ≡ 15
    → IsNamed k addr s
    → dump_byte (16 * k + length s + 1) c (line_of addr s lines)
      ≡ line_of (address (16 * k)) [] (lines ++ row k (s ++ c ∷ []) ∷ [])
unfolding dump_byte
dump_byte-full k c addr s lines h e =
    let n = 16 * k + length s + 1 in
    ap (λ d. end_byte n (add_byte c d)) (start_line-line_of k addr s lines (omega arith) e)
    ∙ ap (end_byte n) (add_byte-line_of c (address (16 * k)) s lines (omega arith))
    ∙ end_byte-full k c addr s lines h

dump_byte-more :
    (k c : ℕ) (addr s : Bytes) (lines : List Bytes)
    → length s < 15
    → IsNamed k addr s
    → dump_byte (16 * k + length s + 1) c (line_of addr s lines)
      ≡ line_of (address (16 * k)) (s ++ c ∷ []) lines
unfolding dump_byte
dump_byte-more k c addr s lines h e =
    let n = 16 * k + length s + 1 in
    ap (λ d. end_byte n (add_byte c d)) (start_line-line_of k addr s lines (omega arith) e)
    ∙ ap (end_byte n) (add_byte-line_of c (address (16 * k)) s lines (omega arith))
    ∙ end_byte-more k c (address (16 * k)) s lines h

rows-nil : (fuel k : ℕ) → rows fuel k [] ≡ []
rows-nil zero k = refl
rows-nil (suc fuel) k = refl

-- A last row.
rows-last :
    (fuel k : ℕ) (s : Bytes)
    → 0 < length s
    → length s ≤ fuel
    → length s < 16
    → rows fuel k s ≡ row k s ∷ []
rows-last fuel k [] p f h = absurd (omega arith)
rows-last zero k (c ∷ s) p f h = absurd (omega arith)
rows-last (suc fuel) k (c ∷ s) p f h =
    rw (drop-length_le 16 (c ∷ s) (omega arith), take-length_le 16 (c ∷ s) (omega arith))
      (ap (λ r. row k (c ∷ s) ∷ r) (rows-nil fuel (k + 1)))

-- A first row.
rows-first :
    (fuel k : ℕ) (s rest : Bytes)
    → length s ≡ 16
    → rows (suc fuel) k (s ++ rest) ≡ row k s ∷ rows fuel (k + 1) rest
rows-first fuel k [] rest h = absurd (omega arith)
rows-first fuel k (c ∷ s) rest h =
    rw (take-append_length 16 (c ∷ s) rest h, drop-append_length 16 (c ∷ s) rest h) refl

end_dump-rows :
    (fuel k : ℕ) (s addr : Bytes) (lines : List Bytes)
    → length s ≤ fuel
    → length s < 16
    → IsNamed k addr s
    → (end_dump (line_of addr s lines)).lines ≡ lines ++ rows fuel k s
unfolding line_of end_dump
end_dump-rows fuel k [] addr lines f h e =
    ground (arith, hex_part-nil, rows-nil fuel k, append-nil lines)
end_dump-rows fuel k (c ∷ s) addr lines f h e =
    ground (arith, rows-last fuel k (c ∷ s), hex_part-some c s, row_lem k (c ∷ s))

IsNamed-snoc : (k : ℕ) (s : Bytes) (c : ℕ) → IsNamed k (address (16 * k)) (s ++ c ∷ [])
IsNamed-snoc k [] c = refl
IsNamed-snoc k (d ∷ s) c = refl

no_text-line_of : (msg : Bytes) → line_of [] [] (first_line msg ∷ []) ≡ no_text msg
unfolding line_of hex_part char_part
no_text-line_of msg = refl

-- The rest of a dump, from a line with the bytes `s` on, is logged as rows.
dump_bytes-rows :
    (fuel k : ℕ) (rest s addr : Bytes) (lines : List Bytes)
    → length (s ++ rest) ≤ fuel
    → length s < 16
    → IsNamed k addr s
    → (end_dump (dump_bytes (16 * k + length s + 1) rest (line_of addr s lines))).lines
      ≡ lines ++ rows fuel k (s ++ rest)
unfolding dump_bytes
dump_bytes-rows fuel k [] s addr lines f h e =
    rw (append-nil s) (end_dump-rows fuel k s addr lines (rw (append-nil s) at f) h e)
dump_bytes-rows zero k (c ∷ rest) s addr lines f h e =
    absurd (omega (arith, length-append s (c ∷ rest)))
dump_bytes-rows (suc fuel) k (c ∷ rest) s addr lines f h e =
    let t = s ++ c ∷ [] in
    let joined : t ++ rest ≡ s ++ c ∷ rest = append_assoc s (c ∷ []) rest in
    let long = length-append s (c ∷ rest) in
    let longer : length t ≡ length s + 1 = length-append s (c ∷ []) in
    elim (Bool-cases (length s == 15)) [
      | inl q ↦
          let next : 16 * k + length s + 1 + 1 ≡ 16 * (k + 1) + 0 + 1 = ground arith in
          let ih =
            dump_bytes-rows fuel (k + 1) rest [] (address (16 * k)) (lines ++ row k t ∷ [])
              (ground arith) (omega arith) tt in
          rw
            (
              next,
              dump_byte-full k c addr s lines (ground arith) e,
              ← joined,
              rows-first fuel k t rest (ground arith),
            )
            (ih ∙ append_assoc lines (row k t ∷ []) (rows fuel (k + 1) rest))
      | inr q ↦
          let next : 16 * k + length s + 1 + 1 ≡ 16 * k + length t + 1 = omega arith in
          let ih =
            dump_bytes-rows (suc fuel) k rest t (address (16 * k)) lines (rw joined f)
              (ground arith) (IsNamed-snoc k s c) in
          rw (next, dump_byte-more k c addr s lines (ground arith) e, ← joined) ih
    ]

-- The bytes that are shown are logged behind the message in rows of sixteen, of which each has its
-- address, its bytes and its characters.
pub hex_dump-rows :
    (msg bytes : Bytes) (trunc : Bool)
    → let shown = truncated trunc bytes in
      hex_dump msg bytes trunc ≡ first_line msg ∷ rows (length shown) 0 shown
unfolding hex_dump
hex_dump-rows msg bytes trunc =
    let shown = truncated trunc bytes in
    ap (λ d. (end_dump (dump_bytes 1 shown d)).lines) (sym (no_text-line_of msg))
    ∙ dump_bytes-rows (length shown) 0 shown [] [] (first_line msg ∷ []) (omega arith) (omega arith)
        tt
