-- ===== src/Bluetooth/Start.antt =====
-- Starting the console (bt_test/zib_bluetooth.c): `HAL_load`, `gatt_init`, `eng_bt_scan_start`. What the
-- loading functions of the HAL answer is an argument.
use multi_test.Prelude.{Bool, false, ◌&&◌, List, none, some, if◌then◌else◌}
use multi_test.Prelude.Int.{is_zero, ℤ, pos, ltb_ℤ}
use multi_test.Prelude.Text.{Bytes}
use multi_test.Bluetooth.Adapter.{BtHal, bdt_init}
use multi_test.Bluetooth.Gatt.{Gatt}
use multi_test.Bluetooth.Commands.{Bt, console_loop}

-- The answers of `hw_get_module`, `open`, `get_bluetooth_interface`, `get_profile_interface` and of the
-- GATT interface's `init`.
pub record Loading : Type 0 where
  pub module_err : ℤ
  pub open_err : ℤ
  pub interface_found : Bool
  pub gatt_found : Bool
  pub gatt_status : ℤ

-- The value of `HAL_load`, and whether `sBtInterface` is not NULL.
unfoldable pub hal_load : Loading → ℤ × Bool
hal_load l =
    if is_zero l.module_err
    then (l.open_err, is_zero l.open_err && l.interface_found)
    else (l.module_err, false)

unfoldable pub gatt_init : Loading → Gatt → Gatt
gatt_init l w = record w { gatt_if = l.gatt_found && is_zero l.gatt_status }

-- How the console ends.
pub data Ending (S : Type 0) : Type 0 where
  fault : Ending S
  exited : ℤ → Ending S
  ended : Bt S → Ending S

module _ {S : Type 0} (hal : BtHal S) where
  -- The calls of the HAL by name, for a HAL that is loaded.
  unfoldable pub run_console : Loading → List Bytes → Bt S → Ending S
  unfolding gatt_init
  run_console l lines w =
      let started : Bt S = record w {
        adapter = bdt_init hal w.adapter;
        gatt = gatt_init l w.gatt;
      } in
      elim (console_loop hal lines started) [ none ↦ fault | some w' ↦ ended w' ]

  unfoldable pub eng_bt_scan_start : Loading → List Bytes → Bt S → Ending S
  unfolding hal_load run_console
  eng_bt_scan_start l lines w =
      let (err, found) = hal_load l in
      if ltb_ℤ err (pos 0) then exited (pos 0) else if found then run_console l lines w else fault
