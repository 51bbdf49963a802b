-- ===== src/Telephony/Pdu.antt =====
-- `smsc_to_pdu` (tel_test/ls_telephony_util.cpp): the number of a message centre, in the order of a
-- PDU.
use multi_test.Prelude.{
  ℕ, zero, suc, ◌+◌, ◌/◌, ◌%◌, [], ◌∷◌, ◌++◌, Option, none, some, ◌==◌, if◌then◌else◌, length, drop,
}
use multi_test.Prelude.Int.{ℤ, pos, negsuc, ltb_ℤ}
use multi_test.Prelude.Text.{Bytes, codes}
use multi_test.Prelude.Fault.{◌>>=◌}
use multi_test.Prelude.Buffer.{store_at, string_at}

-- The loop: `n` pairs of bytes are exchanged.
unfoldable pub swap_pairs : ℕ → Bytes → Bytes
swap_pairs zero s = s
swap_pairs (suc n) [] = []
swap_pairs (suc n) (a ∷ []) = a ∷ []
swap_pairs (suc n) (a ∷ b ∷ s) = b ∷ a ∷ swap_pairs n s

-- `strncpy(scb + p_len, "F", 2)`, for a number of odd length.
abbrev pub pad : ℕ → Bytes → Option Bytes
pad p_len buf = if p_len % 2 == 0 then some buf else store_at buf (4 + p_len) (b'F' ∷ 0 ∷ [])

-- Behind the guard; `number` is what follows the first byte of `smsc`.
unfoldable pub write_pdu : Bytes → Bytes → Option Bytes
unfolding swap_pairs
write_pdu number buf = do
  copied ← store_at buf 4 number
  padded ← pad (length number) copied
  text ← string_at padded 4
  some (codes "0891" ++ swap_pairs (length text / 2) (drop 4 padded))

-- `buf` is the array at `pdu_smsc`. None is a fault: NULL or the empty string, of which the code
-- skips a byte, or an access behind the array.
unfoldable pub smsc_to_pdu : Option Bytes → Bytes → ℤ → Option (ℤ × Bytes)
unfolding write_pdu
smsc_to_pdu smsc buf pdu_smsc_len =
    if ltb_ℤ pdu_smsc_len (pos 16) then some (negsuc 0, buf) else elim smsc [
      | none ↦ none
      | some [] ↦ none
      | some (c ∷ number) ↦ write_pdu number buf >>= λ pdu. some (pos 0, pdu)
    ]
