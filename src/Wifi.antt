-- ===== src/Wifi.antt =====
-- The wifi test (ls_wifi_test.c): its data, and the children that model it. Wifi/Line and
-- Wifi/Results read the supplicant's scan table (Wifi/RoundTrip proves it over Wifi/Layout),
-- Wifi/Command sends commands, Wifi/Scan scans and judges, Wifi/Power opens and closes,
-- Wifi/TestRun is the whole test and Wifi/Verdict what it means, Wifi/Network adds a network, Wifi/Connect
-- connects to it, Wifi/Dhcp asks for an address, Wifi/Start is the thread that does all of it,
-- Wifi/Searches has two searches in strings that nothing calls.
-- Wifi/Bounds, Wifi/Runs and Wifi/Steps follow the bounds of its array through single operations,
-- whole runs and runs in any order. Wifi/Threads has the threads of a test,
-- Wifi/Remains and Wifi/Turns what their turns keep, Wifi/Created how they start, Wifi/Interleaved and Wifi/Ending what they come to.
-- Wifi/Handshake has the wait for a connection beside the event loop, Wifi/Mutex who holds its mutex,
-- Wifi/Returned what the wait comes to and Wifi/Stalled what becomes of the loop.
pub mod Line
pub mod Results
pub mod Layout
pub mod RoundTrip
pub mod Command
pub mod Scan
pub mod Power
pub mod TestRun
pub mod Verdict
pub mod Network
pub mod Connect
pub mod Dhcp
pub mod Searches
pub mod Start
pub mod Bounds
pub mod Runs
pub mod Steps
pub mod Threads
pub mod Remains
pub mod Turns
pub mod Created
pub mod Interleaved
pub mod Ending
pub mod Handshake
pub mod Stalled
pub mod Mutex
pub mod Returned
use multi_test.Prelude.{ℕ, Bool, List, Option, ◌++◌, ◌∷◌, []}
use multi_test.Prelude.Int.{ℤ}
use multi_test.Prelude.Text.{Bytes}

-- `wifi_ap_t`; the two char arrays by the C strings that they hold.
pub record WifiAp : Type 0 where
  pub smac : Bytes
  pub name : Bytes
  pub sig_level : ℤ
  pub frequency : ℤ

abbrev pub wifi_max_ap : ℕ
wifi_max_ap = 20

-- `sStatus`, a flag for each of its three bits.
pub record Status : Type 0 where
  pub opened : Bool
  pub scanning : Bool
  pub scan_end : Bool

-- Calls of the driver and supplicant library, in the order made.
pub data DriverCall : Type 0 where
  load_driver unload_driver start_supplicant stop_supplicant : DriverCall
  connect_to_supplicant close_supplicant_connection down_interface : DriverCall

-- The file's variables; `sup` is the supplicant, `sent` the commands given to it and `calls` the
-- driver calls. `aps` is the array `sAPs` as far as it has been written, `test_result` is whether
-- `wifi_test_result` is ZIB_PASS.
pub record Wifi (S : Type 0) : Type 0 where
  pub sup : S
  pub sent : List Bytes
  pub calls : List DriverCall
  pub status : Status
  pub ap_num : ℤ
  pub aps : List WifiAp
  pub connect_status : ℕ
  pub event_looping : Bool
  pub sem : ℕ
  pub test_result : Bool
  pub test_over : Bool

-- The library call `wifi_command`: a command and the size that a reply may have give the reply, or
-- none for an error. A reply is not longer than that size.
abbrev pub Exec : Type 0 → Type 0
Exec S = S → Bytes → ℕ → S × Option Bytes

abbrev pub call : {S : Type 0} → Wifi S → DriverCall → Wifi S
call w c = record w { calls = w.calls ++ c ∷ [] }
