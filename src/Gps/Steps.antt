-- ===== src/Gps/Steps.antt =====
-- Every sequence of calls of the provider's functions (gps_test/android_gps.c).
use multi_test.Prelude.{ℕ, Bool, true, ◌&&◌, [], Option, none, some, ◌≡◌, refl, arith, leb}
use multi_test.Prelude.Int.{ℤ, pos, negsuc}
use multi_test.Prelude.Text.{Bytes}
use multi_test.Gps.Provider.{
  gps, xtra, agps, ni, debug, ril, geofencing, cleanup, set_position_mode, start, stop,
  delete_aiding_data, inject_time, inject_location, set_ref_location, ni_message, set_set_id,
  update_network_state, update_network_availability, inject_xtra_data, data_conn_open,
  data_conn_closed, data_conn_failed, set_server, respond, get_internal_state, add_geofence_area,
  remove_geofence_area, pause_geofence, resume_geofence, Gps, Hal, Device, no_pointers, class_init,
  Callbacks, invoke, invoke_if, init,
}
use multi_test.Gps.Operations.{
  RilTable, on_interface, gps_set_position_mode, gps_start, gps_stop, gps_cleanup,
  gps_delete_aiding_data, gps_inject_time, gps_inject_location, set_reference_location,
  send_ni_message, agps_set_id, gps_inject_xtra_data, agps_data_conn_open, agps_data_conn_closed,
  agps_data_conn_failed, set_agps_server, send_ni_response, provider_internal_state,
  provider_network_state, on_geofence, add_geofence, remove_geofence, gps_pause_geofence,
  gps_resume_geofence,
}
use multi_test.Gps.Offered.{
  all_offered, IsSound, class_init-IsSound, init-IsSound, succeeds-IsSound, invoke_if-IsSound,
  on_interface-IsSound,
}
use mathlib.Core.Path.{subst}

-- A call of one of the provider's functions.
pub data Step {S D : Type 0} (hal : Hal S D) (d : Device) (w : Gps S D) : Gps S D → Type 0 where
  loads : Step hal d w (record w { ptrs = class_init d w.ptrs })
  inits : (cb : Callbacks) → Step hal d w ((init hal cb w).0)
  sets_mode :
      (mode recurrence interval accuracy time : ℤ)
      → Step hal d w ((gps_set_position_mode hal mode recurrence interval accuracy time w).0)
  starts : Step hal d w ((gps_start hal w).0)
  stops : Step hal d w ((gps_stop hal w).0)
  cleans_up : Step hal d w (gps_cleanup hal w)
  deletes : (flags : ℤ) → Step hal d w (gps_delete_aiding_data hal flags w)
  injects_time :
      (time reference uncertainty : ℤ)
      → Step hal d w (gps_inject_time hal time reference uncertainty w)
  injects_location :
      (latitude longitude accuracy : D)
      → Step hal d w (gps_inject_location hal latitude longitude accuracy w)
  sets_reference :
      (is_cellid : ℤ → Bool) (type mcc mnc lac cid : ℤ)
      → Step hal d w (set_reference_location hal is_cellid type mcc mnc lac cid w)
  sends_ni : (msg : Bytes) (size : ℤ) → Step hal d w (send_ni_message hal msg size w)
  sets_id : (type : ℤ) (setid : Bytes) → Step hal d w (agps_set_id hal type setid w)
  injects_xtra :
      (bytes : Bytes) (length : ℤ) → Step hal d w (gps_inject_xtra_data hal bytes length w)
  opens_conn : (apn : Option Bytes) → Step hal d w (agps_data_conn_open hal apn w)
  closes_conn : Step hal d w (agps_data_conn_closed hal w)
  fails_conn : Step hal d w (agps_data_conn_failed hal w)
  sets_server :
      (type : ℤ) (host : Bytes) (port : ℤ) → Step hal d w (set_agps_server hal type host port w)
  responds : (notif response : ℤ) → Step hal d w (send_ni_response hal notif response w)
  updates :
      (table : RilTable) (sizeof_table : ℕ) (connected type roaming available : ℤ)
      (extra apn : Option Bytes)
      → Step hal d w (
          (provider_network_state hal table sizeof_table connected type roaming available extra apn
            w))
  adds_fence :
      (id : ℤ) (latitude longitude radius : D) (last monitor responsiveness timer : ℤ)
      → Step hal d w
          ((add_geofence hal id latitude longitude radius last monitor responsiveness timer w).0)
  removes_fence : (id : ℤ) → Step hal d w ((remove_geofence hal id w).0)
  pauses_fence : (id : ℤ) → Step hal d w ((gps_pause_geofence hal id w).0)
  resumes_fence : (id transition : ℤ) → Step hal d w ((gps_resume_geofence hal id transition w).0)
  reads_state :
      (length : ℕ) (w' : Gps S D) (text : Option Bytes)
      → provider_internal_state hal length w ≡ some (w', text)
      → Step hal d w w'

-- Any number of calls.
pub data Reached {S D : Type 0} (hal : Hal S D) (d : Device) (s : S) : Gps S D → Type 0 where
  begun : Reached hal d s (record { ptrs = no_pointers; hal = s; calls = [] })
  goes_on : {w w' : Gps S D} → Reached hal d s w → Step hal d w w' → Reached hal d s w'

module _ {S D : Type 0} (hal : Hal S D) (d : Device) where
  updates-IsSound :
      (table : RilTable) (sizeof_table : ℕ) (connected type roaming available : ℤ)
      (extra apn : Option Bytes) (w : Gps S D)
      → IsSound d w
      → IsSound d (
          provider_network_state hal table sizeof_table connected type roaming available extra apn
            w)
  unfolding provider_network_state invoke_if invoke
  updates-IsSound table sizeof_table connected type roaming available extra apn w h =
      invoke_if-IsSound hal d
        (w.ptrs.ril_ptr
          && table.has_network_state
          && (leb sizeof_table table.size && table.has_availability))
        (update_network_availability available apn)
        (invoke_if hal (w.ptrs.ril_ptr && table.has_network_state)
          (update_network_state connected type roaming extra) w)
        (λ e. ground arith)
        (invoke_if-IsSound hal d (w.ptrs.ril_ptr && table.has_network_state)
          (update_network_state connected type roaming extra) w (λ e. ground arith) h)

  read_state :
      (length : ℕ) (w w' : Gps S D) (text : Option Bytes)
      → provider_internal_state hal length w ≡ some (w', text)
      → on_interface hal debug get_internal_state w ≡ w'
  unfolding provider_internal_state
  read_state length w w' text e = ground arith

  begun-IsSound :
      (s : S) → IsSound {S = S} {D = D} d (record { ptrs = no_pointers; hal = s; calls = [] })
  unfolding all_offered
  begun-IsSound s = (
    refl,
    elim [
      | gps ↦ λ e. ground arith
      | xtra ↦ λ e. ground arith
      | agps ↦ λ e. ground arith
      | ni ↦ λ e. ground arith
      | debug ↦ λ e. ground arith
      | ril ↦ λ e. ground arith
      | geofencing ↦ λ e. ground arith
    ],
  )

  Step-IsSound : {w w' : Gps S D} → IsSound d w → Step hal d w w' → IsSound d w'
  unfolding add_geofence agps_data_conn_closed agps_data_conn_failed agps_data_conn_open agps_set_id
      gps_cleanup gps_delete_aiding_data gps_inject_location gps_inject_time gps_inject_xtra_data
      gps_pause_geofence gps_resume_geofence gps_set_position_mode gps_start gps_stop on_geofence
      remove_geofence send_ni_message send_ni_response set_agps_server set_reference_location
  Step-IsSound {w = w} h loads = class_init-IsSound hal d w h
  Step-IsSound {w = w} h (inits cb) = init-IsSound hal d cb w h
  Step-IsSound {w = w} h (sets_mode mode recurrence interval accuracy time) =
      succeeds-IsSound hal d (set_position_mode mode recurrence interval accuracy time) w refl h
  Step-IsSound {w = w} h starts = succeeds-IsSound hal d start w refl h
  Step-IsSound {w = w} h stops = succeeds-IsSound hal d stop w refl h
  Step-IsSound {w = w} h cleans_up = on_interface-IsSound hal d cleanup w h
  Step-IsSound {w = w} h (deletes flags) = on_interface-IsSound hal d (delete_aiding_data flags) w h
  Step-IsSound {w = w} h (injects_time time reference uncertainty) =
      on_interface-IsSound hal d (inject_time time reference uncertainty) w h
  Step-IsSound {w = w} h (injects_location latitude longitude accuracy) =
      on_interface-IsSound hal d (inject_location latitude longitude accuracy) w h
  Step-IsSound {w = w} h (sets_reference is_cellid type mcc mnc lac cid) =
      invoke_if-IsSound hal d (w.ptrs.ril_ptr && is_cellid type)
        (set_ref_location type mcc mnc lac cid) w (λ e. ground arith) h
  Step-IsSound {w = w} h (sends_ni msg (pos size)) =
      invoke_if-IsSound hal d w.ptrs.ril_ptr (ni_message msg size) w (λ e. e) h
  Step-IsSound h (sends_ni msg (negsuc size)) = h
  Step-IsSound {w = w} h (sets_id type setid) =
      on_interface-IsSound hal d (set_set_id type setid) w h
  Step-IsSound {w = w} h (injects_xtra bytes length) =
      on_interface-IsSound hal d (inject_xtra_data bytes length) w h
  Step-IsSound h (opens_conn none) = h
  Step-IsSound {w = w} h (opens_conn (some apn)) =
      on_interface-IsSound hal d (data_conn_open apn) w h
  Step-IsSound {w = w} h closes_conn = on_interface-IsSound hal d data_conn_closed w h
  Step-IsSound {w = w} h fails_conn = on_interface-IsSound hal d data_conn_failed w h
  Step-IsSound {w = w} h (sets_server type host port) =
      on_interface-IsSound hal d (set_server type host port) w h
  Step-IsSound {w = w} h (responds notif response) =
      on_interface-IsSound hal d (respond notif response) w h
  Step-IsSound {w = w} h (updates table sizeof_table connected type roaming available extra apn) =
      updates-IsSound table sizeof_table connected type roaming available extra apn w h
  Step-IsSound {w = w} h
        (adds_fence id latitude longitude radius last monitor responsiveness timer) =
      on_interface-IsSound hal d
        (add_geofence_area id latitude longitude radius last monitor responsiveness timer) w h
  Step-IsSound {w = w} h (removes_fence id) =
      on_interface-IsSound hal d (remove_geofence_area id) w h
  Step-IsSound {w = w} h (pauses_fence id) = on_interface-IsSound hal d (pause_geofence id) w h
  Step-IsSound {w = w} h (resumes_fence id transition) =
      on_interface-IsSound hal d (resume_geofence id transition) w h
  Step-IsSound {w = w} h (reads_state length w' text e) =
      subst (IsSound d) (read_state length w w' text e)
        (on_interface-IsSound hal d get_internal_state w h)

  -- Whatever functions are called in whatever order, and whatever the HAL answers, each call goes
  -- through an interface that the device has: none is made through NULL.
  pub Reached-all_offered : (s : S) (w : Gps S D) → Reached hal d s w → all_offered d w.calls ≡ true
  Reached-all_offered s w r = (sound r).0
    where
      sound : {w : Gps S D} → Reached hal d s w → IsSound d w
      sound begun = begun-IsSound s
      sound (goes_on r t) = Step-IsSound (sound r) t
