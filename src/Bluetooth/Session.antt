-- ===== src/Bluetooth/Session.antt =====
-- A session of the GATT server (bt_test/zib_bluetooth.c): commands and callbacks in turn.
use multi_test.Prelude.{true, List, [], ◌∷◌, ◌++◌, Option, some, ◌≡◌, arith}
use mathlib.Core.List.{append_assoc}
use multi_test.Prelude.Int.{ℤ, pos}
use multi_test.Prelude.Text.{codes}
use multi_test.Prelude.Fault.{◌>>=◌}
use multi_test.Bluetooth.Address.{set_uuid}
use multi_test.Bluetooth.Gatt.{
  Gatt, GattCall, set_adv_data, listen, register_server, add_service, add_characteristic,
  start_service, send_indication, uuid_service, uuid_char, btgatts_register_app_cb,
  btgatts_connection_cb, btgatts_service_added_cb, btgatts_characteristic_added_cb,
  do_btgatts_start_advertise, do_btgatts_init_server, do_btgatts_send_notification,
}

-- The commands 7, 8 and 9, each behind the callbacks that the ones before lead to: the server, the
-- service and the characteristic get their ids, then a client connects.
abbrev server_session : (server service characteristic connection : ℤ) → Gatt → Option Gatt
server_session server service characteristic connection w = do
  advertised ← do_btgatts_start_advertise w
  added ← do_btgatts_init_server (btgatts_register_app_cb (pos 0) server advertised)
  described ← btgatts_service_added_cb service added
  running ← btgatts_characteristic_added_cb (pos 0) server service characteristic described
  do_btgatts_send_notification (btgatts_connection_cb connection (pos 1) running)

-- What the session sends: each later call is made with the ids that the callbacks told.
abbrev session_calls : (client server service characteristic connection : ℤ) → List GattCall
session_calls client server service characteristic connection =
    set_adv_data client
    ∷ listen client
    ∷ register_server (set_uuid 0 0)
    ∷ add_service server uuid_service 4
    ∷ add_characteristic server service uuid_char 26 36881
    ∷ start_service server service 2
    ∷ send_indication server characteristic connection (codes "hello")
    ∷ []

-- The commands 7, 8 and 9, with the callbacks between them, bring the server up step by step, each
-- call with the ids that the callbacks before it told, and notify the client that is connected.
server_session-calls :
    (server service characteristic connection : ℤ) (w : Gatt)
    → w.gatt_if ≡ true
    → (w' : Gatt) × (server_session server service characteristic connection w ≡ some w')
      × (w'.sent ≡ w.sent ++ session_calls w.client_if server service characteristic connection)
unfolding btgatts_register_app_cb btgatts_connection_cb btgatts_service_added_cb
    btgatts_characteristic_added_cb do_btgatts_start_advertise do_btgatts_init_server
    do_btgatts_send_notification
server_session-calls server service characteristic connection w e = (
  record w {
    server_if = server;
    char_handle = characteristic;
    gatts_conn_id = connection;
    sent =
        ((((((w.sent ++ set_adv_data w.client_if ∷ []) ++ listen w.client_if ∷ [])
                ++ register_server (set_uuid 0 0) ∷ [])
              ++ add_service server uuid_service 4 ∷ [])
            ++ add_characteristic server service uuid_char 26 36881 ∷ [])
          ++ start_service server service 2 ∷ [])
        ++ send_indication server characteristic connection (codes "hello") ∷ [];
  },
  ground arith,
  simp (append_assoc),
)
