-- ===== src/Bluetooth/Callbacks.antt =====
-- The callback tables of the GATT interface (bt_test/zib_bluetooth.c), and sequences of callbacks and
-- commands. A callback that only logs stands without its arguments. None is a fault.
use multi_test.Prelude.{ℕ, List, [], ◌∷◌, Option, some}
use multi_test.Prelude.Int.{ℤ}
use multi_test.Prelude.Text.{Bytes}
use multi_test.Prelude.Fault.{◌>>=◌}
use multi_test.Bluetooth.Gatt.{
  Gatt, btgattc_register_app_cb, btgatts_register_app_cb, btgatts_connection_cb,
  btgatts_service_added_cb, btgatts_characteristic_added_cb, btgatts_request_write_cb,
  do_btgattc_register_app, do_btgattc_unregister_app, do_btgatts_start_advertise,
  do_btgatts_init_server, do_btgatts_send_notification,
}

-- A call of an entry of `sGattClientCallbacks`: of the first with its status and its client.
pub data ClientCallback : Type 0 where
  client_registered : ℤ → ℤ → ClientCallback
  scan_result client_opened client_closed search_complete search_result : ClientCallback
  get_characteristic get_descriptor get_included_service : ClientCallback
  register_for_notification notify : ClientCallback
  read_characteristic write_characteristic read_descriptor write_descriptor : ClientCallback
  execute_write remote_rssi advertise : ClientCallback

unfoldable pub client_callback : ClientCallback → Gatt → Gatt
client_callback (client_registered status client_if) w = btgattc_register_app_cb status client_if w
client_callback scan_result w = w
client_callback client_opened w = w
client_callback client_closed w = w
client_callback search_complete w = w
client_callback search_result w = w
client_callback get_characteristic w = w
client_callback get_descriptor w = w
client_callback get_included_service w = w
client_callback register_for_notification w = w
client_callback notify w = w
client_callback read_characteristic w = w
client_callback write_characteristic w = w
client_callback read_descriptor w = w
client_callback write_descriptor w = w
client_callback execute_write w = w
client_callback remote_rssi w = w
client_callback advertise w = w

-- A write request: connection, transaction, handle, offset, length and bytes, or NULL.
pub record Write : Type 0 where
  pub conn_id : ℤ
  pub trans_id : ℤ
  pub attr_handle : ℤ
  pub offset : ℤ
  pub len : ℤ
  pub value : Option Bytes

-- A call of an entry of `sGattServerCallbacks`. A registration has its status and its server, a
-- connection its id and whether it is one, a service its handle, a characteristic its status, its server,
-- its service and its handle.
pub data ServerCallback : Type 0 where
  server_registered : ℤ → ℤ → ServerCallback
  connection : ℤ → ℤ → ServerCallback
  service_added : ℤ → ServerCallback
  included_service_added : ServerCallback
  characteristic_added : ℤ → ℤ → ℤ → ℤ → ServerCallback
  descriptor_added service_started service_stopped service_deleted request_read : ServerCallback
  request_write : Write → ServerCallback
  request_exec_write response_confirmation : ServerCallback

-- `max_len` is the size of a response's array.
unfoldable pub server_callback : ℕ → ServerCallback → Gatt → Option Gatt
server_callback max_len (server_registered status server_if) w =
    some (btgatts_register_app_cb status server_if w)
server_callback max_len (connection conn_id connected) w =
    some (btgatts_connection_cb conn_id connected w)
server_callback max_len (service_added srvc_handle) w = btgatts_service_added_cb srvc_handle w
server_callback max_len included_service_added w = some w
server_callback max_len (characteristic_added status server_if srvc_handle char_handle) w =
    btgatts_characteristic_added_cb status server_if srvc_handle char_handle w
server_callback max_len descriptor_added w = some w
server_callback max_len service_started w = some w
server_callback max_len service_stopped w = some w
server_callback max_len service_deleted w = some w
server_callback max_len request_read w = some w
server_callback max_len (request_write r) w =
    btgatts_request_write_cb max_len r.conn_id r.trans_id r.attr_handle r.offset r.len r.value w
server_callback max_len request_exec_write w = some w
server_callback max_len response_confirmation w = some w

-- The GATT commands of the console, and the one that is in no table.
pub data GattCommand : Type 0 where
  registers unregisters advertises inits notifies : GattCommand

unfoldable pub gatt_command : GattCommand → Gatt → Option Gatt
gatt_command registers w = do_btgattc_register_app w
gatt_command unregisters w = do_btgattc_unregister_app w
gatt_command advertises w = do_btgatts_start_advertise w
gatt_command inits w = do_btgatts_init_server w
gatt_command notifies w = do_btgatts_send_notification w

pub data GattMove : Type 0 where
  client : ClientCallback → GattMove
  server : ServerCallback → GattMove
  command : GattCommand → GattMove

unfoldable pub gatt_move : ℕ → GattMove → Gatt → Option Gatt
unfolding client_callback server_callback gatt_command
gatt_move max_len (client c) w = some (client_callback c w)
gatt_move max_len (server c) w = server_callback max_len c w
gatt_move max_len (command c) w = gatt_command c w

unfoldable pub gatt_moves : ℕ → List GattMove → Gatt → Option Gatt
unfolding gatt_move
gatt_moves max_len [] w = some w
gatt_moves max_len (m ∷ ms) w = gatt_move max_len m w >>= gatt_moves max_len ms
