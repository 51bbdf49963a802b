-- ===== src/Tests/Bluetooth.antt =====
-- The Bluetooth modules at concrete inputs.
use multi_test.Prelude.{
  ℕ, zero, suc, true, false, List, none, some, ◌∷◌, [], ◌+◌, ◌%◌, ◌++◌, ◌≡◌, refl, arith, replicate,
  length,
}
use multi_test.Bluetooth.HexDump.{hex_dump, first_line, address, dump_line}
use multi_test.Bluetooth.HexDump.Parts.{rows}
use multi_test.Bluetooth.HexDump.Rows.{hex_dump-rows}
use multi_test.Bluetooth.Demands.{
  enables, starts, pairs, state_changed, adapter_moves, demands, requests_of, made_before,
  adapter_moves-demands,
}
use multi_test.Prelude.Int.{pos, negsuc}
use multi_test.Bluetooth.Commands.{
  Cmd, Bt, help, enable, console_cmd_list, help_lines, setup_test_env, find_cmd,
}
use multi_test.Bluetooth.Start.{Loading, gatt_init, hal_load, ended, eng_bt_scan_start}
use multi_test.Bluetooth.Served.{AllPairWell, eng_bt_scan_start-ended}
use multi_test.Bluetooth.Callbacks.{
  GattMove, server, command, server_registered, connection, service_added, characteristic_added,
  request_write, advertises, inits, notifies, gatt_moves,
}
use multi_test.Bluetooth.Told.{Ids, last_ids, gatt_demands, serving}
use multi_test.Bluetooth.Serves.{gatt_moves-serving}
use multi_test.Bluetooth.Adapter.{
  Adapter, BtHal, untold, started, bd_addr, device_found_cb, discovery_state_changed_cb,
  adapter_state_changed, do_start_discovery, bdt_enable, bdt_init,
}
use multi_test.Bluetooth.Search.{
  Callback, found, discovery_state, adapter_state, deliver, at_poll, IsFirst, bluethood_test,
  bluethood_test-IsFirst, searching, returns,
}
use multi_test.Prelude.Text.{Bytes, codes}
use multi_test.Prelude.Strtol.{strtoul}
use multi_test.Prelude.Decimal.{print_dec}
use multi_test.Bluetooth.Console.{get_str, get_int, u32_mod}
use multi_test.Bluetooth.Reading.{get_int-print_dec}
use multi_test.Bluetooth.Address.{bd2str, str2bd, str2bd-bd2str}

get_int-print_dec_example :
    get_int 7 (replicate 2 b' ' ++ (print_dec 4294967299 ++ codes " x"))
    ≡ (4294967299 % u32_mod, codes " x")
get_int-print_dec_example = get_int-print_dec 2 4294967299 7 (codes " x") refl

abbrev addr : Bytes
addr = 0x00 ∷ 0x1A ∷ 0xFF ∷ 0x08 ∷ 0x99 ∷ 0x7E ∷ []

str2bd-bd2str_example : str2bd (bd2str addr) ≡ some addr
str2bd-bd2str_example = str2bd-bd2str addr (omega arith) refl

-- A HAL that counts its calls.
abbrev counting : BtHal ℕ
counting n r = (n + 1, pos 0)

abbrev off : Adapter ℕ
off = record {
  bt_enabled = false;
  device_find_status = false;
  discovery = untold;
  status = pos 0;
  hal = 0;
  requests = [];
}

-- The adapter comes up in the sleep, a device is found before the second poll.
abbrev asleep : List Callback
asleep = adapter_state true ∷ []

abbrev events : ℕ → List Callback
events zero = discovery_state started ∷ []
events (suc k) = found (bd_addr addr ∷ []) ∷ []

abbrev bare : Bt ℕ
bare = record {
  adapter = off;
  gatt = record {
    gatt_if = false;
    client_if = negsuc 0;
    server_if = negsuc 0;
    char_handle = negsuc 0;
    gatts_conn_id = negsuc 0;
    sent = [];
  };
  main_done = false;
  jobs = [];
}

abbrev loading : Loading
loading = record {
  module_err = pos 0;
  open_err = pos 0;
  interface_found = true;
  gatt_found = true;
  gatt_status = pos 0;
}

abbrev typed : List Bytes
typed = codes "1\n" ∷ codes "5 00:1A:FF:08:99:7E\n" ∷ codes "8\n" ∷ codes "q\n" ∷ codes "2\n" ∷ []

loaded : hal_load loading ≡ (pos 0, true)
unfolding hal_load
loaded = refl

typed-AllPairWell : AllPairWell typed
unfolding str2bd strtoul get_str
typed-AllPairWell = (
  λ e. absurd (ground arith),
  (
    λ e. (addr, refl),
    (λ e. absurd (ground arith), (λ e. absurd (ground arith), (λ e. absurd (ground arith), tt))),
  ),
)

eng_bt_scan_start-ended_example :
    (w' : Bt ℕ) × (eng_bt_scan_start counting loading typed bare ≡ ended w') × (w'.jobs ≡ [])
eng_bt_scan_start-ended_example =
    eng_bt_scan_start-ended counting loading typed bare loaded (refl, refl) (omega arith)
      typed-AllPairWell

-- The name of the longest command has one byte; the help has a line for each of the eleven.
setup_test_env-console : setup_test_env console_cmd_list 0 ≡ 1
unfolding setup_test_env
setup_test_env-console = refl

help_lines-console : length (help_lines console_cmd_list) ≡ 11
unfolding help_lines
help_lines-console = refl

-- A table whose second entry is a job: its line goes to a thread, and there the handler runs.
abbrev with_job : List Cmd
with_job =
    record { name = codes "h"; handler = help; help_text = []; is_job = false }
    ∷ record { name = codes "1"; handler = enable; help_text = []; is_job = true }
    ∷ []

find_cmd-job :
    find_cmd counting with_job false (codes "1 x") (codes "1") (codes " x") bare
    ≡ some (record bare { jobs = codes "1 x" ∷ [] })
unfolding find_cmd
find_cmd-job = refl

find_cmd-thread :
    find_cmd counting with_job true (codes "1 x") (codes "1") (codes " x") bare
    ≡ some (record bare { adapter = bdt_enable counting off })
unfolding find_cmd
find_cmd-thread = refl

abbrev unserved : Ids
unserved = record {
  client_id = negsuc 0;
  server_id = negsuc 0;
  characteristic = negsuc 0;
  connected = negsuc 0;
}

-- A server that comes up, answers a write to its characteristic and notifies the client.
abbrev served : List GattMove
served =
    command advertises
    ∷ server (server_registered (pos 0) (pos 4))
    ∷ command inits
    ∷ server (service_added (pos 40))
    ∷ server (characteristic_added (pos 0) (pos 4) (pos 40) (pos 42))
    ∷ server (connection (pos 1) (pos 1))
    ∷ server (
        request_write (record {
          conn_id = pos 1;
          trans_id = pos 7;
          attr_handle = pos 42;
          offset = pos 0;
          len = pos 2;
          value = some (codes "hi");
        }))
    ∷ command notifies
    ∷ []

gatt_moves-serving_example :
    gatt_moves 600 served (serving unserved [])
    ≡ some (serving (last_ids served unserved) ([] ++ gatt_demands served unserved))
gatt_moves-serving_example = gatt_moves-serving 600 served unserved []

hex_dump-rows_example :
    hex_dump (codes "data:") (codes "Hello, factory test") false
    ≡ first_line (codes "data:") ∷ rows 19 0 (codes "Hello, factory test")
hex_dump-rows_example = hex_dump-rows (codes "data:") (codes "Hello, factory test") false

-- The last line of a dump.
hex_dump-last :
    hex_dump (codes "data:") (codes "AZ 9") true
    ≡ first_line (codes "data:")
      ∷ (codes "[0000]   41 5A 20 39                                         AZ.9" ++ b'\n' ∷ [])
      ∷ []
unfolding hex_dump address dump_line
hex_dump-last = refl

abbrev text : Bytes
text = codes "00:1A:FF:08:99:7E"

adapter_moves-demands_example :
    requests_of
      (adapter_moves counting (enables ∷ state_changed true ∷ pairs text ∷ starts ∷ []) off)
    ≡ made_before [] (demands (enables ∷ state_changed true ∷ pairs text ∷ starts ∷ []) false)
adapter_moves-demands_example =
    adapter_moves-demands counting (enables ∷ state_changed true ∷ pairs text ∷ starts ∷ []) off

-- An address of three bytes is read behind its end.
str2bd-short : str2bd (codes "00:1A:FF") ≡ none
unfolding str2bd strtoul
str2bd-short = refl

second_poll : IsFirst counting events (searching counting asleep bare.adapter) 1
unfolding searching bdt_init at_poll deliver device_found_cb discovery_state_changed_cb
    adapter_state_changed bd2str do_start_discovery bdt_enable
second_poll = (ground arith, elim [ zero ↦ λ h. refl | suc i ↦ λ h. absurd (omega arith) ])

bluethood_test-IsFirst_example :
    bluethood_test counting loading 5 asleep events bare
    ≡ returns 1 (record bare {
      adapter = at_poll counting events (searching counting asleep bare.adapter) 1;
      gatt = gatt_init loading bare.gatt;
    })
bluethood_test-IsFirst_example =
    bluethood_test-IsFirst counting loading 5 1 asleep events bare loaded second_poll (omega arith)
