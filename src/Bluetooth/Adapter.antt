-- ===== src/Bluetooth/Adapter.antt =====
-- The adapter (bt_test/zib_bluetooth.c): the flags that the callbacks of the Bluetooth HAL set, and
-- the commands that turn it on and off and look for devices. The HAL is a parameter: a function from
-- its state and a call to its state and a status.
use multi_test.Prelude.{
  ℕ, Bool, true, false, List, [], ◌∷◌, ◌++◌, Option, none, some, if◌then◌else◌, ltb, length,
}
use multi_test.Prelude.Int.{ℤ}
use multi_test.Prelude.Text.{Bytes}
use multi_test.Prelude.Fault.{◌>>=◌}
use multi_test.Bluetooth.Address.{bd2str, str2bd}

-- The calls of the HAL that the adapter's functions make. The value of a property is left out: it is
-- read through the address of an array that is no longer live.
pub data Request : Type 0 where
  enable : Request
  disable : Request
  set_scan_mode : Request
  set_discovery_timeout : Request
  create_bond : Bytes → Request
  start_discovery : Request
  cancel_discovery : Request
  init : Request
  cleanup : Request
  dut_mode_configure : ℤ → Request
  le_test_mode : ℕ → Bytes → Request
  ssp_reply : Bytes → ℤ → Request

-- bt_discovery_state_t, and -1 as long as the HAL has told nothing.
pub data Discovery : Type 0 where
  untold : Discovery
  stopped : Discovery
  started : Discovery

pub record Adapter (S : Type 0) : Type 0 where
  pub bt_enabled : Bool
  pub device_find_status : Bool
  pub discovery : Discovery
  pub status : ℤ
  pub hal : S
  pub requests : List Request

abbrev pub BtHal : Type 0 → Type 0
BtHal S = S → Request → S × ℤ

-- The properties of a found device that `device_found_cb` looks at.
pub data Property : Type 0 where
  bd_name : Bytes → Property
  bd_addr : Bytes → Property
  other : Property

-- `remote_bd_str` behind the properties: the last address, printed.
unfoldable pub remote_bd_str : Bytes → List Property → Bytes
remote_bd_str s [] = s
remote_bd_str s (bd_name n ∷ ps) = remote_bd_str s ps
remote_bd_str s (bd_addr a ∷ ps) = remote_bd_str (bd2str a) ps
remote_bd_str s (other ∷ ps) = remote_bd_str s ps

unfoldable pub device_found_cb : {S : Type 0} → List Property → Adapter S → Adapter S
unfolding remote_bd_str
device_found_cb ps w = record w { device_find_status = ltb 0 (length (remote_bd_str [] ps)) }

unfoldable pub discovery_state_changed_cb : {S : Type 0} → Discovery → Adapter S → Adapter S
discovery_state_changed_cb state w = record w { discovery = state }

module _ {S : Type 0} (hal : BtHal S) where
  -- A call whose status is not kept.
  unfoldable pub ask : Request → Adapter S → Adapter S
  ask r w = record w { hal = (hal w.hal r).0; requests = w.requests ++ r ∷ [] }

  -- A call whose status is kept.
  unfoldable pub request : Request → Adapter S → Adapter S
  unfolding ask
  request r w = record (ask r w) { status = (hal w.hal r).1 }

  unfoldable pub set_adapter_discovery_mode : Adapter S → Adapter S
  unfolding ask
  set_adapter_discovery_mode w = ask set_scan_mode w

  unfoldable pub set_adapter_discovery_timeout : Adapter S → Adapter S
  unfolding ask
  set_adapter_discovery_timeout w = ask set_discovery_timeout w

  unfoldable pub adapter_state_changed : Bool → Adapter S → Adapter S
  unfolding set_adapter_discovery_mode set_adapter_discovery_timeout
  adapter_state_changed false w = record w { bt_enabled = false }
  adapter_state_changed true w =
      set_adapter_discovery_mode (set_adapter_discovery_timeout (record w { bt_enabled = true }))

  unfoldable pub bdt_enable : Adapter S → Adapter S
  unfolding request
  bdt_enable w = if w.bt_enabled then w else request enable w

  unfoldable pub bdt_disable : Adapter S → Adapter S
  unfolding request
  bdt_disable w = if w.bt_enabled then request disable w else w

  -- The interface is loaded. The argument none is the NULL that stands for no address; the value none
  -- is the fault of `str2bd`.
  unfoldable pub do_pair : Option Bytes → Adapter S → Option (Adapter S)
  unfolding ask
  do_pair none w = some w
  do_pair (some addr) w = str2bd addr >>= λ b. some (ask (create_bond b) w)

  unfoldable pub do_start_discovery : Adapter S → Adapter S
  unfolding ask
  do_start_discovery w = ask start_discovery w

  unfoldable pub do_stop_discovery : Adapter S → Adapter S
  unfolding ask
  do_stop_discovery w = ask cancel_discovery w

  unfoldable pub bdt_init : Adapter S → Adapter S
  unfolding request
  bdt_init w = request init w

  unfoldable pub bdt_cleanup : Adapter S → Adapter S
  unfolding ask
  bdt_cleanup w = ask cleanup w

  -- Every pairing is accepted.
  unfoldable pub ssp_request_cb : Bytes → ℤ → Adapter S → Adapter S
  unfolding ask
  ssp_request_cb addr pass_key w = ask (ssp_reply addr pass_key) w
