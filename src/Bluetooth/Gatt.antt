-- ===== src/Bluetooth/Gatt.antt =====
-- The GATT client and server (bt_test/zib_bluetooth.c): the ids that the callbacks keep, and the calls
-- that the callbacks and the commands make. None is a fault: a call through a NULL interface or an
-- access behind an array.
use multi_test.Prelude.{
  ℕ, zero, suc, Bool, true, false, List, [], ◌∷◌, ◌++◌, Option, none, some, if◌then◌else◌, leb,
  length, take, ◌&&◌,
}
use multi_test.Prelude.Int.{is_zero, ℤ, pos, negsuc}
use multi_test.Prelude.Text.{Bytes, codes}
use multi_test.Prelude.Fault.{◌>>=◌, ◌>>◌, require}
use multi_test.Bluetooth.Address.{set_uuid}

-- `btgatt_response_t`, as far as it is set; the value is NULL's where nothing is copied.
pub record Response : Type 0 where
  pub handle : ℤ
  pub auth_req : ℤ
  pub offset : ℤ
  pub len : ℤ
  pub value : Option Bytes

-- The calls of the GATT interface, with the arguments that vary or that the code chooses.
pub data GattCall : Type 0 where
  register_client : Bytes → GattCall
  unregister_client : ℤ → GattCall
  set_adv_data : ℤ → GattCall
  listen : ℤ → GattCall
  register_server : Bytes → GattCall
  add_service : ℤ → Bytes → ℕ → GattCall
  add_characteristic : ℤ → ℤ → Bytes → ℕ → ℕ → GattCall
  start_service : ℤ → ℤ → ℕ → GattCall
  send_indication : ℤ → ℤ → ℤ → Bytes → GattCall
  send_response : ℤ → ℤ → ℤ → Response → GattCall

-- `gatt_if` is whether `sGattIf` is not NULL.
pub record Gatt : Type 0 where
  pub gatt_if : Bool
  pub client_if : ℤ
  pub server_if : ℤ
  pub char_handle : ℤ
  pub gatts_conn_id : ℤ
  pub sent : List GattCall

abbrev pub uuid_service : Bytes
uuid_service =
    0xfb ∷ 0x34 ∷ 0x9b ∷ 0x5f ∷ 0x80 ∷ 0x0 ∷ 0x0 ∷ 0x80 ∷ 0x0 ∷ 0x10 ∷ 0x0 ∷ 0x0 ∷ 0xf0 ∷ 0xff ∷ 0x0
    ∷ 0x0 ∷ []

abbrev pub uuid_char : Bytes
uuid_char =
    0xfb ∷ 0x34 ∷ 0x9b ∷ 0x5f ∷ 0x80 ∷ 0x0 ∷ 0x0 ∷ 0x80 ∷ 0x0 ∷ 0x10 ∷ 0x0 ∷ 0x0 ∷ 0xf1 ∷ 0xff ∷ 0x0
    ∷ 0x0 ∷ []

abbrev pub is_one : ℤ → Bool
is_one (pos zero) = false
is_one (pos (suc zero)) = true
is_one (pos (suc (suc n))) = false
is_one (negsuc n) = false

-- A call through `sGattIf`.
unfoldable pub gatt_send : GattCall → Gatt → Option Gatt
gatt_send c w = require w.gatt_if >> some (record w { sent = w.sent ++ c ∷ [] })

-- What the callbacks do.
unfoldable pub btgattc_register_app_cb : ℤ → ℤ → Gatt → Gatt
btgattc_register_app_cb status client_if w =
    if is_zero status then record w { client_if = client_if } else w

unfoldable pub btgatts_register_app_cb : ℤ → ℤ → Gatt → Gatt
btgatts_register_app_cb status server_if w =
    if is_zero status then record w { server_if = server_if } else w

unfoldable pub btgatts_connection_cb : ℤ → ℤ → Gatt → Gatt
btgatts_connection_cb conn_id connected w =
    if is_one connected
    then record w { gatts_conn_id = conn_id }
    else record w { gatts_conn_id = negsuc 0 }

-- The status and the server of the callback are not looked at.
unfoldable pub btgatts_service_added_cb : ℤ → Gatt → Option Gatt
unfolding gatt_send
btgatts_service_added_cb srvc_handle w =
    gatt_send (add_characteristic w.server_if srvc_handle uuid_char 26 36881) w

unfoldable pub btgatts_characteristic_added_cb : ℤ → ℤ → ℤ → ℤ → Gatt → Option Gatt
unfolding gatt_send
btgatts_characteristic_added_cb status server_if srvc_handle char_handle w =
    if is_zero status
    then gatt_send (start_service server_if srvc_handle 2) (record w { char_handle = char_handle })
    else some w

-- The copy loop runs until its index is `length`: for a negative one it does not stop in the array.
-- `max_len` is the size of the response's array, `value` the bytes at the pointer, or NULL.
abbrev pub copied_value : ℕ → ℤ → Option Bytes → Option (Option Bytes)
copied_value max_len length_ none = some none
copied_value max_len (negsuc n) (some v) = none
copied_value max_len (pos n) (some v) =
    require (leb n max_len && leb n (length v)) >> some (some (take n v))

unfoldable pub btgatts_request_write_cb : ℕ → ℤ → ℤ → ℤ → ℤ → ℤ → Option Bytes → Gatt → Option Gatt
unfolding gatt_send
btgatts_request_write_cb max_len conn_id trans_id attr_handle offset len value w =
    copied_value max_len len value >>= λ v.
    gatt_send
      (send_response conn_id trans_id (pos 0)
        (record { handle = attr_handle; auth_req = pos 0; offset = offset; len = len; value = v }))
      w

-- The commands.
unfoldable pub do_btgattc_register_app : Gatt → Option Gatt
unfolding gatt_send
do_btgattc_register_app w =
    if w.gatt_if then gatt_send (register_client (set_uuid 0 0)) w else some w

unfoldable pub do_btgattc_unregister_app : Gatt → Option Gatt
unfolding gatt_send
do_btgattc_unregister_app w =
    if w.gatt_if then gatt_send (unregister_client w.client_if) w else some w

unfoldable pub btgatts_start_advertising : Gatt → Option Gatt
unfolding gatt_send
btgatts_start_advertising w =
    if w.gatt_if
    then (gatt_send (set_adv_data w.client_if) w >>= gatt_send (listen w.client_if))
    else some w

unfoldable pub btgatts_register_server : Gatt → Option Gatt
unfolding gatt_send
btgatts_register_server w =
    if w.gatt_if then gatt_send (register_server (set_uuid 0 0)) w else some w

unfoldable pub do_btgatts_start_advertise : Gatt → Option Gatt
unfolding btgatts_start_advertising btgatts_register_server
do_btgatts_start_advertise w = btgatts_start_advertising w >>= btgatts_register_server

-- The next two do not test the interface.
unfoldable pub do_btgatts_init_server : Gatt → Option Gatt
unfolding gatt_send
do_btgatts_init_server w = gatt_send (add_service w.server_if uuid_service 4) w

unfoldable pub do_btgatts_send_notification : Gatt → Option Gatt
unfolding gatt_send
do_btgatts_send_notification w =
    gatt_send (send_indication w.server_if w.char_handle w.gatts_conn_id (codes "hello")) w
