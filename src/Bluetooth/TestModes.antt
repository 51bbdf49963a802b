-- ===== src/Bluetooth/TestModes.antt =====
-- The test modes (bt_test/zib_bluetooth.c): `bdt_dut_mode_configure` and `bdt_le_test_mode`. None is an
-- overflow of `int` in the mode's number.
use multi_test.Prelude.{
  ℕ, ◌-◌, ◌%◌, Bool, true, false, not, [], ◌∷◌, Option, some, if◌then◌else◌, ◌==◌,
}
use multi_test.Prelude.Int.{ℤ, pos, negsuc}
use multi_test.Prelude.Text.{Bytes}
use multi_test.Prelude.Fault.{◌>>=◌}
use multi_test.Bluetooth.Console.{get_int, get_signed_int, u32_mod}
use multi_test.Bluetooth.Adapter.{Adapter, BtHal, request, dut_mode_configure, le_test_mode}

abbrev pub hci_le_receiver_test_opcode : ℕ
hci_le_receiver_test_opcode = 0x201D

abbrev pub hci_le_transmitter_test_opcode : ℕ
hci_le_transmitter_test_opcode = 0x201E

abbrev pub hci_le_end_test_opcode : ℕ
hci_le_end_test_opcode = 0x201F

abbrev is_mode : ℤ → Bool
is_mode (pos n) = if n == 0 then true else n == 1
is_mode (negsuc n) = false

-- An argument of `bdt_le_test_mode`: its default is -1, and only a byte of it is used. A negative one is
-- reported and used all the same.
abbrev pub test_arg : Bytes → ℕ × Bytes
test_arg p = let (a, p') = get_int (u32_mod - 1) p in (a % 256, p')

module _ {S : Type 0} (hal : BtHal S) where
  unfoldable pub bdt_dut_mode_configure : Bytes → Adapter S → Option (Adapter S)
  unfolding request
  bdt_dut_mode_configure p w =
      if w.bt_enabled
      then (get_signed_int (negsuc 0) p >>= λ (mode, p').
          some (if is_mode mode then request hal (dut_mode_configure mode) w else w))
      else some w

  unfoldable pub bdt_le_test_mode : Bytes → Adapter S → Adapter S
  unfolding request
  bdt_le_test_mode p w =
      let (cmd, p1) = get_int 0 p in
      let (arg1, p2) = test_arg p1 in
      let (arg2, p3) = test_arg p2 in
      let (arg3, p4) = test_arg p3 in
      if not w.bt_enabled
      then w
      else if cmd == 1
      then request hal (le_test_mode hci_le_receiver_test_opcode (arg1 ∷ [])) w
      else if cmd == 2
      then request hal (le_test_mode hci_le_transmitter_test_opcode (arg1 ∷ arg2 ∷ arg3 ∷ [])) w
      else if cmd == 3
      then request hal (le_test_mode hci_le_end_test_opcode []) w
      else w
