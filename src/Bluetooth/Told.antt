-- ===== src/Bluetooth/Told.antt =====
-- What the GATT client and server are told and what they owe (bt_test/zib_bluetooth.c): the
-- specification of sequences of callbacks and commands.
use multi_test.Prelude.{
  ℕ, Bool, true, false, List, [], ◌∷◌, ◌++◌, Option, none, some, ◌&&◌, if◌then◌else◌, leb, length,
  take,
}
use multi_test.Prelude.Int.{ℤ, pos, negsuc, is_zero}
use multi_test.Prelude.Text.{Bytes, codes}
use multi_test.Bluetooth.Address.{set_uuid}
use multi_test.Bluetooth.Gatt.{
  Gatt, GattCall, register_client, unregister_client, set_adv_data, listen, register_server,
  add_service, add_characteristic, start_service, send_indication, send_response, uuid_service,
  uuid_char, is_one,
}
use multi_test.Bluetooth.Callbacks.{
  ClientCallback, client_registered, ServerCallback, server_registered, connection, service_added,
  characteristic_added, request_write, GattCommand, registers, unregisters, advertises, inits,
  notifies, GattMove, client, server, command,
}

-- The specification knows the ids that were told last.
pub record Ids : Type 0 where
  pub client_id : ℤ
  pub server_id : ℤ
  pub characteristic : ℤ
  pub connected : ℤ

-- What a callback tells: a registration or a characteristic that went well, a connection or its end.
abbrev pub told_by_client : ClientCallback → Ids → Ids
told_by_client (client_registered status id) ids =
    if is_zero status then record ids { client_id = id } else ids
told_by_client c ids = ids

abbrev pub told_by_server : ServerCallback → Ids → Ids
told_by_server (server_registered status id) ids =
    if is_zero status then record ids { server_id = id } else ids
told_by_server (connection id on) ids = record ids {
  connected = if is_one on then id else negsuc 0;
}
told_by_server (characteristic_added status id service handle) ids =
    if is_zero status then record ids { characteristic = handle } else ids
told_by_server c ids = ids

abbrev pub told_ids : GattMove → Ids → Ids
told_ids (client c) ids = told_by_client c ids
told_ids (server c) ids = told_by_server c ids
told_ids (command c) ids = ids

abbrev pub last_ids : List GattMove → Ids → Ids
last_ids [] ids = ids
last_ids (m ∷ ms) ids = last_ids ms (told_ids m ids)

-- The bytes that a write is answered with.
abbrev pub echoed : ℤ → Option Bytes → Option Bytes
echoed (pos n) (some v) = some (take n v)
echoed (negsuc n) (some v) = none
echoed len none = none

-- What a callback or a command has to be followed by.
abbrev pub server_demand : ServerCallback → Ids → List GattCall
server_demand (service_added service) ids =
    add_characteristic ids.server_id service uuid_char 26 36881 ∷ []
server_demand (characteristic_added status id service handle) ids =
    if is_zero status then start_service id service 2 ∷ [] else []
server_demand (request_write r) ids =
    send_response r.conn_id r.trans_id (pos 0) (record {
      handle = r.attr_handle;
      auth_req = pos 0;
      offset = r.offset;
      len = r.len;
      value = echoed r.len r.value;
    })
    ∷ []
server_demand c ids = []

abbrev pub command_demand : GattCommand → Ids → List GattCall
command_demand registers ids = register_client (set_uuid 0 0) ∷ []
command_demand unregisters ids = unregister_client ids.client_id ∷ []
command_demand advertises ids =
    set_adv_data ids.client_id ∷ listen ids.client_id ∷ register_server (set_uuid 0 0) ∷ []
command_demand inits ids = add_service ids.server_id uuid_service 4 ∷ []
command_demand notifies ids =
    send_indication ids.server_id ids.characteristic ids.connected (codes "hello") ∷ []

abbrev pub gatt_demand : GattMove → Ids → List GattCall
gatt_demand (client c) ids = []
gatt_demand (server c) ids = server_demand c ids
gatt_demand (command c) ids = command_demand c ids

abbrev pub gatt_demands : List GattMove → Ids → List GattCall
gatt_demands [] ids = []
gatt_demands (m ∷ ms) ids = gatt_demand m ids ++ gatt_demands ms (told_ids m ids)

-- Whether the bytes of a write fit an array of `max_len` bytes, and are as many as it says.
abbrev pub write_fits : ℕ → ℤ → Option Bytes → Bool
write_fits max_len (pos n) (some v) = leb n max_len && leb n (length v)
write_fits max_len (negsuc n) (some v) = false
write_fits max_len len none = true

abbrev pub callback_fits : ℕ → ServerCallback → Bool
callback_fits max_len (request_write r) = write_fits max_len r.len r.value
callback_fits max_len c = true

abbrev pub move_fits : ℕ → GattMove → Bool
move_fits max_len (server c) = callback_fits max_len c
move_fits max_len (client c) = true
move_fits max_len (command c) = true

abbrev pub all_fit : ℕ → List GattMove → Bool
all_fit max_len [] = true
all_fit max_len (m ∷ ms) = move_fits max_len m && all_fit max_len ms

-- A state with its interface, by what was told and what was sent.
abbrev pub serving : Ids → List GattCall → Gatt
serving ids sent = record {
  gatt_if = true;
  client_if = ids.client_id;
  server_if = ids.server_id;
  char_handle = ids.characteristic;
  gatts_conn_id = ids.connected;
  sent = sent;
}
