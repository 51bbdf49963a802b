-- ===== src/Gps/Provider.antt =====
-- The GPS location provider (gps_test/android_gps.c): the interface pointers, the calls of the HAL,
-- and the functions that set the pointers. The HAL is a parameter, with a state of its own; `D`
-- stands for the floating-point values, which are only passed on.
use multi_test.Prelude.{ℕ, Bool, true, false, ◌&&◌, List, [], ◌∷◌, ◌++◌, Option, if◌then◌else◌}
use multi_test.Prelude.Int.{is_zero, ℤ, pos}
use multi_test.Prelude.Text.{Bytes}

-- The interfaces of the HAL.
pub data Interface : Type 0 where
  gps : Interface
  xtra : Interface
  agps : Interface
  ni : Interface
  debug : Interface
  ril : Interface
  geofencing : Interface

-- The calls through them, with their arguments. (Tables of callbacks are left out.)
pub data Call (D : Type 0) : Type 0 where
  init_of : Interface → Call D
  cleanup : Call D
  set_position_mode : ℤ → ℤ → ℤ → ℤ → ℤ → Call D
  start : Call D
  stop : Call D
  delete_aiding_data : ℤ → Call D
  inject_time : ℤ → ℤ → ℤ → Call D
  inject_location : D → D → D → Call D
  set_ref_location : ℤ → ℤ → ℤ → ℤ → ℤ → Call D
  ni_message : Bytes → ℕ → Call D
  set_set_id : ℤ → Bytes → Call D
  update_network_state : ℤ → ℤ → ℤ → Option Bytes → Call D
  update_network_availability : ℤ → Option Bytes → Call D
  inject_xtra_data : Bytes → ℤ → Call D
  data_conn_open : Bytes → Call D
  data_conn_closed : Call D
  data_conn_failed : Call D
  set_server : ℤ → Bytes → ℤ → Call D
  respond : ℤ → ℤ → Call D
  get_internal_state : Call D
  add_geofence_area : ℤ → D → D → D → ℤ → ℤ → ℤ → ℤ → Call D
  remove_geofence_area : ℤ → Call D
  pause_geofence : ℤ → Call D
  resume_geofence : ℤ → ℤ → Call D

-- Whether each of the static pointers is not NULL.
pub record Pointers : Type 0 where
  pub gps_ptr : Bool
  pub xtra_ptr : Bool
  pub agps_ptr : Bool
  pub ni_ptr : Bool
  pub debug_ptr : Bool
  pub ril_ptr : Bool
  pub geofencing_ptr : Bool

abbrev pub has : Pointers → Interface → Bool
has p gps = p.gps_ptr
has p xtra = p.xtra_ptr
has p agps = p.agps_ptr
has p ni = p.ni_ptr
has p debug = p.debug_ptr
has p ril = p.ril_ptr
has p geofencing = p.geofencing_ptr

-- The pointers, the HAL, and the calls made so far.
pub record Gps (S D : Type 0) : Type 0 where
  pub ptrs : Pointers
  pub hal : S
  pub calls : List (Call D)

-- What the HAL does on a call: its new state and the value that it returns (any, for void).
abbrev pub Hal : Type 0 → Type 0 → Type 0
Hal S D = S → Call D → S × ℤ

-- What the loading functions of the HAL answer: `hw_get_module`, `open`, `get_gps_interface`,
-- `get_extension`.
pub record Device : Type 0 where
  pub module_err : ℤ
  pub open_err : ℤ
  pub gps_interface : Bool
  pub extension : Interface → Bool

abbrev pub no_pointers : Pointers
no_pointers = record {
  gps_ptr = false;
  xtra_ptr = false;
  agps_ptr = false;
  ni_ptr = false;
  debug_ptr = false;
  ril_ptr = false;
  geofencing_ptr = false;
}

-- `sGpsInterface` keeps its value if the module or the device fails.
abbrev find_gps : Device → Pointers → Bool
find_gps d p = if is_zero d.module_err && is_zero d.open_err then d.gps_interface else p.gps_ptr

unfoldable pub class_init : Device → Pointers → Pointers
class_init d p =
    if find_gps d p
    then record {
      gps_ptr = true;
      xtra_ptr = d.extension xtra;
      agps_ptr = d.extension agps;
      ni_ptr = d.extension ni;
      debug_ptr = d.extension debug;
      ril_ptr = d.extension ril;
      geofencing_ptr = d.extension geofencing;
    }
    else record p { gps_ptr = false }

-- The callback tables that are not NULL.
pub record Callbacks : Type 0 where
  pub agps_cb : Bool
  pub ni_cb : Bool
  pub ril_cb : Bool
  pub geofence_cb : Bool

module _ {S D : Type 0} (hal : Hal S D) where
  -- A call through a pointer.
  unfoldable pub invoke : Call D → Gps S D → Gps S D × ℤ
  invoke c w = let (s, r) = hal w.hal c in (record w { hal = s; calls = w.calls ++ c ∷ [] }, r)

  -- A call whose value is not used.
  unfoldable pub invoke_if : Bool → Call D → Gps S D → Gps S D
  unfolding invoke
  invoke_if b c w = if b then (invoke c w).0 else w

  -- XTRA is disabled if its initialisation fails.
  unfoldable pub init_xtra : Gps S D → Gps S D
  unfolding invoke
  init_xtra w =
      let (w', err) = invoke (init_of xtra) w in
      if w.ptrs.xtra_ptr
      then if is_zero err then w' else record w' { ptrs = record w'.ptrs { xtra_ptr = false } }
      else w

  unfoldable pub init_agps : Callbacks → Gps S D → Gps S D
  unfolding invoke_if
  init_agps cb w = invoke_if (w.ptrs.agps_ptr && cb.agps_cb) (init_of agps) w

  unfoldable pub init_ni : Callbacks → Gps S D → Gps S D
  unfolding invoke_if
  init_ni cb w = invoke_if (w.ptrs.ni_ptr && cb.ni_cb) (init_of ni) w

  unfoldable pub init_ril : Callbacks → Gps S D → Gps S D
  unfolding invoke_if
  init_ril cb w = invoke_if (w.ptrs.ril_ptr && cb.ril_cb) (init_of ril) w

  unfoldable pub init_geofencing : Callbacks → Gps S D → Gps S D
  unfolding invoke_if
  init_geofencing cb w = invoke_if (w.ptrs.geofencing_ptr && cb.geofence_cb) (init_of geofencing) w

  -- The initialisations behind that of the main interface.
  unfoldable pub init_rest : Callbacks → Gps S D → Gps S D
  unfolding init_xtra init_agps init_ni init_ril init_geofencing
  init_rest cb w = init_geofencing cb (init_ril cb (init_ni cb (init_agps cb (init_xtra w))))

  unfoldable pub init : Callbacks → Gps S D → Gps S D × ℤ
  unfolding invoke init_rest
  init cb w =
      let (w', err) = invoke (init_of gps) w in
      if w.ptrs.gps_ptr
      then if is_zero err then (init_rest cb w', pos 1) else (w', pos 0)
      else (w, pos 0)
