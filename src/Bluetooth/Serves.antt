-- ===== src/Bluetooth/Serves.antt =====
-- What the GATT client and server promise over sequences of callbacks and commands
-- (bt_test/zib_bluetooth.c).
use multi_test.Prelude.{
  ℕ, true, false, List, [], ◌∷◌, ◌++◌, Option, none, some, ◌≡◌, refl, sym, ◌∙◌, ap, arith,
  if◌then◌else◌, Bool-cases, inl, inr,
}
use mathlib.Core.List.{append_assoc, append-nil}
use multi_test.Prelude.Int.{ℤ, pos, negsuc, is_zero}
use multi_test.Prelude.Text.{Bytes}
use multi_test.Bluetooth.Gatt.{
  Gatt, GattCall, is_one, gatt_send, copied_value, btgattc_register_app_cb, btgatts_register_app_cb,
  btgatts_connection_cb, btgatts_service_added_cb, btgatts_characteristic_added_cb,
  btgatts_request_write_cb, do_btgattc_register_app, do_btgattc_unregister_app,
  btgatts_start_advertising, btgatts_register_server, do_btgatts_start_advertise,
  do_btgatts_init_server, do_btgatts_send_notification,
}
use multi_test.Bluetooth.Callbacks.{
  ClientCallback, client_registered, ServerCallback, server_registered, connection,
  characteristic_added, request_write, GattCommand, advertises, GattMove, client, server, command,
  client_callback, server_callback, gatt_command, gatt_move, gatt_moves,
}
use multi_test.Bluetooth.Told.{
  Ids, told_by_client, told_by_server, told_ids, last_ids, echoed, server_demand, command_demand,
  gatt_demand, gatt_demands, write_fits, callback_fits, move_fits, all_fit, serving,
}

client_callback-serving :
    (c : ClientCallback) (ids : Ids) (sent : List GattCall)
    → client_callback c (serving ids sent) ≡ serving (told_by_client c ids) sent
unfolding client_callback btgattc_register_app_cb
client_callback-serving (client_registered status id) ids sent =
    elim (Bool-cases (is_zero status)) [ inl e ↦ ground arith | inr e ↦ ground arith ]
client_callback-serving c ids sent = ground arith

copied_value-write_fits :
    (max_len : ℕ) (len : ℤ) (value : Option Bytes)
    → copied_value max_len len value
      ≡ (if write_fits max_len len value then some (echoed len value) else none)
copied_value-write_fits max_len (pos n) (some v) = ground arith
copied_value-write_fits max_len (negsuc n) (some v) = refl
copied_value-write_fits max_len (pos n) none = refl
copied_value-write_fits max_len (negsuc n) none = refl

server_callback-serving :
    (max_len : ℕ) (c : ServerCallback) (ids : Ids) (sent : List GattCall)
    → callback_fits max_len c ≡ true
    → server_callback max_len c (serving ids sent)
      ≡ some (serving (told_by_server c ids) (sent ++ server_demand c ids))
unfolding server_callback gatt_send btgatts_register_app_cb btgatts_connection_cb
    btgatts_service_added_cb btgatts_characteristic_added_cb btgatts_request_write_cb
server_callback-serving max_len (server_registered status id) ids sent h =
    ground (arith, append-nil sent, Bool-cases (is_zero status))
server_callback-serving max_len (connection id on) ids sent h =
    ground (arith, append-nil sent, Bool-cases (is_one on))
server_callback-serving max_len (characteristic_added status id service handle) ids sent h =
    ground (arith, append-nil sent, Bool-cases (is_zero status))
server_callback-serving max_len (request_write r) ids sent h =
    rw (copied_value-write_fits max_len r.len r.value, h) refl
server_callback-serving max_len c ids sent h = ground (arith, append-nil sent)

gatt_command-serving :
    (c : GattCommand) (ids : Ids) (sent : List GattCall)
    → gatt_command c (serving ids sent) ≡ some (serving ids (sent ++ command_demand c ids))
unfolding gatt_command gatt_send do_btgattc_register_app do_btgattc_unregister_app
    btgatts_start_advertising btgatts_register_server do_btgatts_start_advertise
    do_btgatts_init_server do_btgatts_send_notification
gatt_command-serving advertises ids sent = simp (append_assoc)
gatt_command-serving c ids sent = ground arith

-- A move that fits, from a state with its interface.
move-serving :
    (max_len : ℕ) (m : GattMove) (ids : Ids) (sent : List GattCall)
    → move_fits max_len m ≡ true
    → gatt_move max_len m (serving ids sent)
      ≡ some (serving (told_ids m ids) (sent ++ gatt_demand m ids))
unfolding gatt_move
move-serving max_len (client c) ids sent h =
    ground (arith, client_callback-serving c ids sent, append-nil sent)
move-serving max_len (server c) ids sent h = server_callback-serving max_len c ids sent h
move-serving max_len (command c) ids sent h = gatt_command-serving c ids sent

move-none :
    (max_len : ℕ) (m : GattMove) (w : Gatt)
    → move_fits max_len m ≡ false
    → gatt_move max_len m w ≡ none
unfolding gatt_move server_callback btgatts_request_write_cb
move-none max_len (server (request_write r)) w h =
    rw (copied_value-write_fits max_len r.len r.value, h) refl
move-none max_len m w h = ground arith

-- With the interface, a sequence of callbacks and commands goes through exactly if the bytes of each
-- write request fit; then the ids kept are those told last, and each call is made with the ids told
-- before it.
pub gatt_moves-serving :
    (max_len : ℕ) (ms : List GattMove) (ids : Ids) (sent : List GattCall)
    → gatt_moves max_len ms (serving ids sent) ≡ (
        if all_fit max_len ms
        then some (serving (last_ids ms ids) (sent ++ gatt_demands ms ids))
        else none)
unfolding gatt_moves
gatt_moves-serving max_len [] ids sent = ap (λ c. some (serving ids c)) (sym (append-nil sent))
gatt_moves-serving max_len (m ∷ ms) ids sent = elim (Bool-cases (move_fits max_len m)) [
  | inl e ↦
      let ids' = told_ids m ids in
      let sent' = sent ++ gatt_demand m ids in
      rw (move-serving max_len m ids sent e, e)
        (gatt_moves-serving max_len ms ids' sent'
          ∙ ap (λ c. if all_fit max_len ms then some (serving (last_ids ms ids') c) else none)
              (append_assoc sent (gatt_demand m ids) (gatt_demands ms ids')))
  | inr e ↦ rw (move-none max_len m (serving ids sent) e, e) refl
]
