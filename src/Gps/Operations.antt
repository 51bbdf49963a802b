-- ===== src/Gps/Operations.antt =====
-- The other functions of the GPS location provider (gps_test/android_gps.c), each named without its
-- prefix android_location_GpsLocationProvider_.
use multi_test.Prelude.{ℕ, Bool, ◌&&◌, Option, none, some, if◌then◌else◌, ltb, leb}
use multi_test.Prelude.Int.{is_zero, ℤ, pos, negsuc}
use multi_test.Prelude.Text.{Bytes}
use multi_test.Gps.Provider.{
  Interface, gps, xtra, agps, ni, debug, ril, geofencing, Call, cleanup, set_position_mode, start,
  stop, delete_aiding_data, inject_time, inject_location, set_ref_location, ni_message, set_set_id,
  update_network_state, update_network_availability, inject_xtra_data, data_conn_open,
  data_conn_closed, data_conn_failed, set_server, respond, get_internal_state, add_geofence_area,
  remove_geofence_area, pause_geofence, resume_geofence, has, Gps, Hal, invoke, invoke_if,
}

-- The part of the table AGpsRilInterface that the code looks at: its size field and two entries that
-- may be NULL.
pub record RilTable : Type 0 where
  pub size : ℕ
  pub has_network_state : Bool
  pub has_availability : Bool

abbrev pub truth : Bool → ℤ
truth b = if b then pos 1 else pos 0

unfoldable pub is_geofence_supported : {S D : Type 0} → Gps S D → ℤ
is_geofence_supported w = truth w.ptrs.geofencing_ptr

module _ {S D : Type 0} (hal : Hal S D) where
  -- `return (sGpsInterface->f(…) == 0)`, or 0 without the interface.
  unfoldable pub succeeds : Call D → Gps S D → Gps S D × ℤ
  unfolding invoke
  succeeds c w =
      let (w', r) = invoke hal c w in if w.ptrs.gps_ptr then (w', truth (is_zero r)) else (w, pos 0)

  -- A call through an interface, or nothing without it.
  unfoldable pub on_interface : Interface → Call D → Gps S D → Gps S D
  unfolding invoke_if
  on_interface i c w = invoke_if hal (has w.ptrs i) c w

  unfoldable pub gps_set_position_mode : ℤ → ℤ → ℤ → ℤ → ℤ → Gps S D → Gps S D × ℤ
  unfolding succeeds
  gps_set_position_mode mode recurrence interval accuracy time w =
      succeeds (set_position_mode mode recurrence interval accuracy time) w

  unfoldable pub gps_start : Gps S D → Gps S D × ℤ
  unfolding succeeds
  gps_start w = succeeds start w

  unfoldable pub gps_stop : Gps S D → Gps S D × ℤ
  unfolding succeeds
  gps_stop w = succeeds stop w

  unfoldable pub gps_cleanup : Gps S D → Gps S D
  unfolding on_interface
  gps_cleanup w = on_interface gps cleanup w

  unfoldable pub gps_delete_aiding_data : ℤ → Gps S D → Gps S D
  unfolding on_interface
  gps_delete_aiding_data flags w = on_interface gps (delete_aiding_data flags) w

  unfoldable pub gps_inject_time : ℤ → ℤ → ℤ → Gps S D → Gps S D
  unfolding on_interface
  gps_inject_time time reference uncertainty w =
      on_interface gps (inject_time time reference uncertainty) w

  unfoldable pub gps_inject_location : D → D → D → Gps S D → Gps S D
  unfolding on_interface
  gps_inject_location latitude longitude accuracy w =
      on_interface gps (inject_location latitude longitude accuracy) w

  -- `is_cellid` is whether a type is the HAL's constant for a GSM or a UMTS cell.
  unfoldable pub set_reference_location : (ℤ → Bool) → ℤ → ℤ → ℤ → ℤ → ℤ → Gps S D → Gps S D
  unfolding invoke_if
  set_reference_location is_cellid type mcc mnc lac cid w =
      invoke_if hal (w.ptrs.ril_ptr && is_cellid type) (set_ref_location type mcc mnc lac cid) w

  unfoldable pub send_ni_message : Bytes → ℤ → Gps S D → Gps S D
  unfolding invoke_if
  send_ni_message msg (negsuc n) w = w
  send_ni_message msg (pos n) w = invoke_if hal w.ptrs.ril_ptr (ni_message msg n) w

  unfoldable pub agps_set_id : ℤ → Bytes → Gps S D → Gps S D
  unfolding on_interface
  agps_set_id type setid w = on_interface ril (set_set_id type setid) w

  unfoldable pub gps_inject_xtra_data : Bytes → ℤ → Gps S D → Gps S D
  unfolding on_interface
  gps_inject_xtra_data bytes length w = on_interface xtra (inject_xtra_data bytes length) w

  unfoldable pub agps_data_conn_open : Option Bytes → Gps S D → Gps S D
  unfolding on_interface
  agps_data_conn_open none w = w
  agps_data_conn_open (some apn) w = on_interface agps (data_conn_open apn) w

  unfoldable pub agps_data_conn_closed : Gps S D → Gps S D
  unfolding on_interface
  agps_data_conn_closed w = on_interface agps data_conn_closed w

  unfoldable pub agps_data_conn_failed : Gps S D → Gps S D
  unfolding on_interface
  agps_data_conn_failed w = on_interface agps data_conn_failed w

  unfoldable pub set_agps_server : ℤ → Bytes → ℤ → Gps S D → Gps S D
  unfolding on_interface
  set_agps_server type host port w = on_interface agps (set_server type host port) w

  unfoldable pub send_ni_response : ℤ → ℤ → Gps S D → Gps S D
  unfolding on_interface
  send_ni_response notif response w = on_interface ni (respond notif response) w

  -- `length` is what the interface returns. None is the copy of that many bytes to NULL, else the
  -- result is the pointer that is returned: NULL.
  unfoldable pub provider_internal_state : ℕ → Gps S D → Option (Gps S D × Option Bytes)
  unfolding on_interface
  provider_internal_state length w =
      if w.ptrs.debug_ptr && ltb 0 length
      then none
      else some (on_interface debug get_internal_state w, none)

  -- `table` is what the interface pointer points to, `sizeof_table` the size of its declared type.
  -- Both calls with `extra`, NULL or not, are the same call.
  unfoldable pub provider_network_state :
      RilTable → ℕ → ℤ → ℤ → ℤ → ℤ → Option Bytes → Option Bytes → Gps S D → Gps S D
  unfolding invoke_if
  provider_network_state table sizeof_table connected type roaming available extra apn w =
      let usable = w.ptrs.ril_ptr && table.has_network_state in
      let w' = invoke_if hal usable (update_network_state connected type roaming extra) w in
      invoke_if hal (usable && (leb sizeof_table table.size && table.has_availability))
        (update_network_availability available apn) w'

  -- The geofence functions: 1 with the interface, else 0.
  unfoldable pub on_geofence : Call D → Gps S D → Gps S D × ℤ
  unfolding on_interface
  on_geofence c w = (on_interface geofencing c w, truth w.ptrs.geofencing_ptr)

  unfoldable pub add_geofence : ℤ → D → D → D → ℤ → ℤ → ℤ → ℤ → Gps S D → Gps S D × ℤ
  unfolding on_geofence
  add_geofence id latitude longitude radius last monitor responsiveness timer w =
      on_geofence (add_geofence_area id latitude longitude radius last monitor responsiveness timer)
        w

  unfoldable pub remove_geofence : ℤ → Gps S D → Gps S D × ℤ
  unfolding on_geofence
  remove_geofence id w = on_geofence (remove_geofence_area id) w

  unfoldable pub gps_pause_geofence : ℤ → Gps S D → Gps S D × ℤ
  unfolding on_geofence
  gps_pause_geofence id w = on_geofence (pause_geofence id) w

  unfoldable pub gps_resume_geofence : ℤ → ℤ → Gps S D → Gps S D × ℤ
  unfolding on_geofence
  gps_resume_geofence id transition w = on_geofence (resume_geofence id transition) w
