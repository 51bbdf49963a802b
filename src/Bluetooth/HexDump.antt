-- ===== src/Bluetooth/HexDump.antt =====
-- `hex_dump` (bt_test/zib_bluetooth.c): sixteen bytes in a line, as hexadecimal numbers and as
-- characters.
pub mod Parts
pub mod Rows
use multi_test.Prelude.{
  ℕ, zero, suc, ◌+◌, ◌-◌, ◌*◌, ◌/◌, ◌%◌, Bool, true, false, ◌&&◌, ◌||◌, List, [], ◌∷◌, ◌++◌,
  if◌then◌else◌, ltb, leb, ◌==◌, length, take, replicate,
}
use multi_test.Prelude.Text.{Bytes, codes}

-- A digit of %X, and one of %x.
abbrev pub upper_digit : ℕ → ℕ
upper_digit d = if ltb d 10 then b'0' + d else b'A' + (d - 10)

abbrev lower_digit : ℕ → ℕ
lower_digit d = if ltb d 10 then b'0' + d else b'a' + (d - 10)

-- %02X and a blank.
unfoldable pub hex_byte : ℕ → Bytes
hex_byte c = upper_digit (c / 16 % 16) ∷ upper_digit (c % 16) ∷ b' ' ∷ []

-- `isalnum` in the C locale, and the character that is shown.
abbrev is_alnum : ℕ → Bool
is_alnum c = leb b'0' c && leb c b'9' || leb b'A' c && leb c b'Z' || leb b'a' c && leb c b'z'

unfoldable pub shown_char : ℕ → ℕ
shown_char c = if is_alnum c then c else b'.'

-- The hexadecimal digits of a number of at most `fuel` digits, in front of `acc`.
unfoldable pub hex_number : ℕ → ℕ → Bytes → Bytes
hex_number zero n acc = acc
hex_number (suc fuel) n acc =
    let more = hex_number fuel (n / 16) (lower_digit (n % 16) ∷ acc) in
    if n / 16 == 0 then lower_digit (n % 16) ∷ acc else more

-- %.4x of an `unsigned int`, which has eight digits at most.
unfoldable pub address : ℕ → Bytes
unfolding hex_number
address n = let s = hex_number 8 n [] in replicate (4 - length s) b'0' ++ s

-- `strncat(text, more, sizeof(text) - strlen(text) - 1)` for an array of `size` bytes.
unfoldable pub append_text : ℕ → Bytes → Bytes → Bytes
append_text size text more = text ++ take (size - length text - 1) more

abbrev pub hexstr_size : ℕ
hexstr_size = 16 * 3 + 5

abbrev pub charstr_size : ℕ
charstr_size = 16 * 1 + 5

-- "[%4.4s]   %-50.50s  %s\n"
unfoldable pub dump_line : Bytes → Bytes → Bytes → Bytes
dump_line addr hex chars =
    let a = take 4 addr in
    let h = take 50 hex in
    b'['
    ∷ (replicate (4 - length a) b' '
        ++ (a
            ++ (codes "]   "
                ++ (h
                    ++ (replicate (50 - length h) b' ' ++ (codes "  " ++ (chars ++ b'\n' ∷ [])))))))

pub record Dump : Type 0 where
  pub addrstr : Bytes
  pub hexstr : Bytes
  pub charstr : Bytes
  pub lines : List Bytes

abbrev pub emit : Dump → Dump
emit d = record d { lines = d.lines ++ dump_line d.addrstr d.hexstr d.charstr ∷ [] }

-- The address of the line, at its first byte.
abbrev pub start_line : ℕ → Dump → Dump
start_line n d = if n % 16 == 1 then record d { addrstr = address (n - 1) } else d

abbrev pub add_byte : ℕ → Dump → Dump
add_byte c d = record d {
  hexstr = append_text hexstr_size d.hexstr (hex_byte c);
  charstr = append_text charstr_size d.charstr (shown_char c ∷ []);
}

-- Behind a byte: the line is complete, or half of it is.
abbrev pub end_byte : ℕ → Dump → Dump
end_byte n d =
    if n % 16 == 0
    then record (emit d) { hexstr = []; charstr = [] }
    else if n % 8 == 0
    then record d {
      hexstr = append_text hexstr_size d.hexstr (codes "  ");
      charstr = append_text charstr_size d.charstr (codes " ");
    }
    else d

-- A round of the loop.
unfoldable pub dump_byte : ℕ → ℕ → Dump → Dump
unfolding append_text hex_byte shown_char
dump_byte n c d = end_byte n (add_byte c (start_line n d))

unfoldable pub dump_bytes : ℕ → Bytes → Dump → Dump
unfolding dump_byte
dump_bytes n [] d = d
dump_bytes n (c ∷ cs) d = dump_bytes (n + 1) cs (dump_byte n c d)

-- The bytes that are shown: `size` is the length of `data`.
abbrev pub truncated : Bool → Bytes → Bytes
truncated trunc bytes = if trunc && ltb 32 (length bytes) then take 32 bytes else bytes

abbrev pub first_line : Bytes → Bytes
first_line msg = msg ++ codes "  " ++ b'\n' ∷ []

-- The rest, if there is one.
unfoldable pub end_dump : Dump → Dump
end_dump d = if ltb 0 (length d.hexstr) then emit d else d

abbrev pub no_text : Bytes → Dump
no_text msg = record { addrstr = []; hexstr = []; charstr = []; lines = first_line msg ∷ [] }

-- The lines that are logged.
unfoldable pub hex_dump : Bytes → Bytes → Bool → List Bytes
unfolding dump_bytes end_dump
hex_dump msg bytes trunc = (end_dump (dump_bytes 1 (truncated trunc bytes) (no_text msg))).lines
