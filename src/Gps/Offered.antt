-- ===== src/Gps/Offered.antt =====
-- Which interfaces the provider calls (gps_test/android_gps.c): only those that the HAL gave it.
use multi_test.Prelude.{
  Bool, true, false, ◌&&◌, ◌||◌, List, [], ◌∷◌, ◌++◌, ◌≡◌, refl, arith, ap, ◌∙◌, inl, inr,
  Bool-cases,
}
use multi_test.Prelude.Int.{is_zero}
use multi_test.Gps.Provider.{
  Interface, gps, xtra, agps, ni, debug, ril, geofencing, Call, init_of, cleanup, set_position_mode,
  start, stop, delete_aiding_data, inject_time, inject_location, set_ref_location, ni_message,
  set_set_id, update_network_state, update_network_availability, inject_xtra_data, data_conn_open,
  data_conn_closed, data_conn_failed, set_server, respond, get_internal_state, add_geofence_area,
  remove_geofence_area, pause_geofence, resume_geofence, has, Gps, Hal, Device, class_init,
  Callbacks, invoke, invoke_if, init_xtra, init_agps, init_ni, init_ril, init_geofencing, init_rest,
  init,
}
use multi_test.Gps.Operations.{succeeds, on_interface}

-- The interface that a call goes through.
abbrev pub interface_of : {D : Type 0} → Call D → Interface
interface_of (init_of i) = i
interface_of cleanup = gps
interface_of (set_position_mode a b c d e) = gps
interface_of start = gps
interface_of stop = gps
interface_of (delete_aiding_data a) = gps
interface_of (inject_time a b c) = gps
interface_of (inject_location a b c) = gps
interface_of (set_ref_location a b c d e) = ril
interface_of (ni_message a b) = ril
interface_of (set_set_id a b) = ril
interface_of (update_network_state a b c d) = ril
interface_of (update_network_availability a b) = ril
interface_of (inject_xtra_data a b) = xtra
interface_of (data_conn_open a) = agps
interface_of data_conn_closed = agps
interface_of data_conn_failed = agps
interface_of (set_server a b c) = agps
interface_of (respond a b) = ni
interface_of get_internal_state = debug
interface_of (add_geofence_area a b c d e f g h) = geofencing
interface_of (remove_geofence_area a) = geofencing
interface_of (pause_geofence a) = geofencing
interface_of (resume_geofence a b) = geofencing

abbrev is_gps : Interface → Bool
is_gps gps = true
is_gps xtra = false
is_gps agps = false
is_gps ni = false
is_gps debug = false
is_gps ril = false
is_gps geofencing = false

-- The device loads and has the interface.
unfoldable pub offers : Device → Interface → Bool
offers d i =
    is_zero d.module_err && is_zero d.open_err && d.gps_interface && (is_gps i || d.extension i)

unfoldable pub all_offered : {D : Type 0} → Device → List (Call D) → Bool
all_offered d [] = true
all_offered d (c ∷ cs) = offers d (interface_of c) && all_offered d cs

all_offered-append :
    {D : Type 0} (d : Device) (cs : List (Call D)) (c : Call D)
    → all_offered d cs ≡ true
    → offers d (interface_of c) ≡ true
    → all_offered d (cs ++ c ∷ []) ≡ true
unfolding all_offered
all_offered-append d [] c h k = ground arith
all_offered-append d (e ∷ cs) c h k = ground (arith, all_offered-append d cs c)

-- Every call so far went through an interface of the device, and every pointer is one of its.
abbrev pub IsSound : {S D : Type 0} → Device → Gps S D → Type 0
IsSound d w =
    (all_offered d w.calls ≡ true) × ((i : Interface) → has w.ptrs i ≡ true → offers d i ≡ true)

-- The device is fixed, and the HAL's answers to all else are arbitrary.
module _ {S D : Type 0} (hal : Hal S D) (d : Device) where
  pub invoke-IsSound :
      (c : Call D) (w : Gps S D)
      → offers d (interface_of c) ≡ true
      → IsSound d w
      → IsSound d (invoke hal c w).0
  unfolding invoke
  invoke-IsSound c w k h = (all_offered-append d w.calls c h.0 k, h.1)

  pub invoke_if-IsSound :
      (b : Bool) (c : Call D) (w : Gps S D)
      → (b ≡ true → has w.ptrs (interface_of c) ≡ true)
      → IsSound d w
      → IsSound d (invoke_if hal b c w)
  unfolding invoke_if
  invoke_if-IsSound true c w k h = invoke-IsSound c w (h.1 (interface_of c) (k refl)) h
  invoke_if-IsSound false c w k h = h

  pub on_interface-IsSound :
      (c : Call D) (w : Gps S D) → IsSound d w → IsSound d (on_interface hal (interface_of c) c w)
  unfolding on_interface
  on_interface-IsSound c w h = invoke_if-IsSound (has w.ptrs (interface_of c)) c w (λ e. e) h

  pub class_init-IsSound :
      (w : Gps S D) → IsSound d w → IsSound d (record w { ptrs = class_init d w.ptrs })
  unfolding class_init offers
  class_init-IsSound w h = (
    h.0,
    elim [
      | gps ↦ ground (arith, h.1 gps)
      | xtra ↦ ground (arith, h.1 gps, h.1 xtra)
      | agps ↦ ground (arith, h.1 gps, h.1 agps)
      | ni ↦ ground (arith, h.1 gps, h.1 ni)
      | debug ↦ ground (arith, h.1 gps, h.1 debug)
      | ril ↦ ground (arith, h.1 gps, h.1 ril)
      | geofencing ↦ ground (arith, h.1 gps, h.1 geofencing)
    ],
  )

  drop_xtra-IsSound :
      (w : Gps S D)
      → IsSound d w
      → IsSound d (record w { ptrs = record w.ptrs { xtra_ptr = false } })
  drop_xtra-IsSound w h = (
    h.0,
    elim [
      | gps ↦ h.1 gps
      | xtra ↦ λ e. ground arith
      | agps ↦ h.1 agps
      | ni ↦ h.1 ni
      | debug ↦ h.1 debug
      | ril ↦ h.1 ril
      | geofencing ↦ h.1 geofencing
    ],
  )

  init_xtra-IsSound : (w : Gps S D) → IsSound d w → IsSound d (init_xtra hal w)
  unfolding init_xtra invoke
  init_xtra-IsSound w h = elim (Bool-cases w.ptrs.xtra_ptr) [
    | inl e ↦ elim (Bool-cases (is_zero (invoke hal (init_of xtra) w).1)) [
      | inl z ↦ ground (arith, invoke-IsSound (init_of xtra) w (h.1 xtra e) h)
      | inr z ↦ ground (
        arith,
        drop_xtra-IsSound (invoke hal (init_of xtra) w).0
            (invoke-IsSound (init_of xtra) w (h.1 xtra e) h),
      )
    ]
    | inr e ↦ ground arith
  ]

  init_of-IsSound :
      (i : Interface) (b : Bool) (w : Gps S D)
      → IsSound d w
      → IsSound d (invoke_if hal (has w.ptrs i && b) (init_of i) w)
  init_of-IsSound i b w h =
      invoke_if-IsSound (has w.ptrs i && b) (init_of i) w (λ e. ground arith) h

  init_rest-IsSound : (cb : Callbacks) (w : Gps S D) → IsSound d w → IsSound d (init_rest hal cb w)
  unfolding init_rest init_agps init_ni init_ril init_geofencing
  init_rest-IsSound cb w h = init_of-IsSound geofencing cb.geofence_cb _ (
      init_of-IsSound ril cb.ril_cb _
        (init_of-IsSound ni cb.ni_cb _ (init_of-IsSound agps cb.agps_cb _ (init_xtra-IsSound w h))))

  pub init-IsSound : (cb : Callbacks) (w : Gps S D) → IsSound d w → IsSound d (init hal cb w).0
  unfolding init
  init-IsSound cb w h = elim (Bool-cases w.ptrs.gps_ptr) [
    | inl e ↦
        let h' = invoke-IsSound (init_of gps) w (h.1 gps e) h in
        elim (Bool-cases (is_zero (invoke hal (init_of gps) w).1)) [
          | inl z ↦ ground (arith, init_rest-IsSound cb (invoke hal (init_of gps) w).0 h')
          | inr z ↦ ground (arith, h')
        ]
    | inr e ↦ ground arith
  ]

  pub succeeds-IsSound :
      (c : Call D) (w : Gps S D)
      → interface_of c ≡ gps
      → IsSound d w
      → IsSound d (succeeds hal c w).0
  unfolding succeeds
  succeeds-IsSound c w k h = elim (Bool-cases w.ptrs.gps_ptr) [
    | inl e ↦ ground (arith, invoke-IsSound c w (ap (offers d) k ∙ h.1 gps e) h)
    | inr e ↦ ground arith
  ]
