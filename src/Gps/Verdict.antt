-- ===== src/Gps/Verdict.antt =====
-- What `test_gps_start` tells its caller (gps_test/gps_test.c).
use multi_test.Prelude.{
  ℕ, [], ◌∷◌, ◌++◌, Option, none, some, ◌≡◌, ◌∙◌, ap, ◌⊎◌, inl, inr, arith, refl, Bool-cases, true,
  false, not,
}
use mathlib.Core.List.{append_assoc}
use multi_test.Prelude.Int.{is_zero, pos, negsuc}
use multi_test.Gps.Provider.{
  Gps, Hal, Device, gps, init_of, start, stop, cleanup, class_init, init, init_rest, init_xtra,
  init_agps, init_ni, init_ril, init_geofencing, invoke_if, invoke,
}
use multi_test.Gps.Operations.{gps_start, gps_stop, gps_cleanup}
use multi_test.Gps.Session.{
  GpsResult, Ending, returned, exited, finish, gps_close, test_gps_start, all_callbacks,
}

-- The state behind `android_location_GpsLocationProvider_init`.
abbrev inited : {S D : Type 0} → Hal S D → Gps S D → Gps S D
inited hal w = (init hal all_callbacks w).0

-- How the test ends from a state whose interfaces have been looked for: without the interface -1 and no
-- call; 0 behind an initialisation that the HAL refuses; -1 behind a start that it refuses; else the
-- process exits with status 0, once the HAL has been started, stopped and cleaned up.
abbrev pub Concluded : {S D : Type 0} → Hal S D → Gps S D → Gps S D × Ending → Type 0
Concluded hal w (end, e) =
    ((w.ptrs.gps_ptr ≡ false) × (e ≡ returned (negsuc 0)) × (end.calls ≡ w.calls))
    ⊎ (((w.ptrs.gps_ptr ≡ true)
          × (is_zero (hal w.hal (init_of gps)).1 ≡ false)
          × (e ≡ returned (pos 0))
          × (end.calls ≡ w.calls ++ init_of gps ∷ []))
        ⊎ (((w.ptrs.gps_ptr ≡ true)
              × (is_zero (hal w.hal (init_of gps)).1 ≡ true)
              × (is_zero (hal (inited hal w).hal start).1 ≡ false)
              × (e ≡ returned (negsuc 0))
              × (end.calls ≡ (inited hal w).calls ++ start ∷ []))
            ⊎ ((w.ptrs.gps_ptr ≡ true)
                × (is_zero (hal w.hal (init_of gps)).1 ≡ true)
                × (is_zero (hal (inited hal w).hal start).1 ≡ true)
                × (e ≡ exited (pos 0))
                × (end.calls ≡ (inited hal w).calls ++ start ∷ stop ∷ cleanup ∷ []))))

-- The part of the outcome that leaves the process.
abbrev pub ending : {A B : Type 0} → Option (A × B) → Option A
ending none = none
ending (some (a, b)) = some a

module _ {S D : Type 0} (hal : Hal S D) where
  init_rest-gps_ptr : (w : Gps S D) → (init_rest hal all_callbacks w).ptrs.gps_ptr ≡ w.ptrs.gps_ptr
  unfolding init_rest init_xtra init_agps init_ni init_ril init_geofencing invoke_if invoke
  init_rest-gps_ptr w = ground arith

  init-cases :
      (w : Gps S D)
      → w.ptrs.gps_ptr ≡ true
      → ((is_zero (hal w.hal (init_of gps)).1 ≡ false)
          × (is_zero (init hal all_callbacks w).1 ≡ true)
          × ((inited hal w).calls ≡ w.calls ++ init_of gps ∷ []))
        ⊎ ((is_zero (hal w.hal (init_of gps)).1 ≡ true)
            × (is_zero (init hal all_callbacks w).1 ≡ false)
            × ((inited hal w).ptrs.gps_ptr ≡ true))
  unfolding init invoke
  init-cases w e = elim (Bool-cases (is_zero (hal w.hal (init_of gps)).1)) [
    | inl z ↦
        let v : Gps S D = record w {
          hal = (hal w.hal (init_of gps)).0;
          calls = w.calls ++ init_of gps ∷ [];
        } in
        inr (z, ground arith, ground (arith, init_rest-gps_ptr v))
    | inr z ↦ inl (z, ground arith, ground arith)
  ]

  gps_start-cases :
      (w : Gps S D)
      → w.ptrs.gps_ptr ≡ true
      → (is_zero (gps_start hal w).1 ≡ not (is_zero (hal w.hal start).1))
        × ((gps_start hal w).0.calls ≡ w.calls ++ start ∷ [])
        × ((gps_start hal w).0.ptrs.gps_ptr ≡ true)
  unfolding gps_start invoke
  gps_start-cases w e = (ground arith, ground arith, ground arith)

  finish-calls :
      (w : Gps S D)
      → w.ptrs.gps_ptr ≡ true
      → ((finish hal w).1 ≡ exited (pos 0))
        × ((finish hal w).0.calls ≡ w.calls ++ stop ∷ cleanup ∷ [])
  unfolding finish gps_close gps_stop gps_cleanup invoke
  finish-calls w e = (ground arith, ground (arith, append_assoc w.calls (stop ∷ []) (cleanup ∷ [])))

module _ {S D : Type 0} (hal : Hal S D) (d : Device) (r : GpsResult) (w : Gps S D) where
  -- If the thread ends, the test ends, and how is decided by what the HAL answers: -1 and no call
  -- without the main interface, 0 if the HAL refuses to be initialised, -1 if it refuses to start; else
  -- the process exits with status 0 behind the calls of start, stop and cleanup, whatever the thread found.
  pub test_gps_start-Concluded :
      (v : GpsResult) (k : ℕ)
      → (end : Gps S D × Ending) × (u : GpsResult) × (test_gps_start hal d (some (v, k)) r w
          ≡ some (end, u))
        × Concluded hal (record w { ptrs = class_init d w.ptrs }) end
  unfolding test_gps_start
  test_gps_start-Concluded v k =
      let w0 : Gps S D = record w { ptrs = class_init d w.ptrs } in
      let w1 = inited hal w0 in
      let w2 = (gps_start hal w1).0 in
      elim (Bool-cases w0.ptrs.gps_ptr) [
        | inr e ↦ ((w0, returned (negsuc 0)), r, ground arith, inl (e, refl, refl))
        | inl e ↦ elim (init-cases hal w0 e) [
          | inl (z, f, calls) ↦
              ((w1, returned (pos 0)), r, ground arith, inr (inl (e, z, refl, calls)))
          | inr (z, f, p1) ↦
              let (answer, calls, p2) = gps_start-cases hal w1 p1 in
              elim (Bool-cases (is_zero (hal w1.hal start).1)) [
                | inr g ↦ (
                  (w2, returned (negsuc 0)),
                  r,
                  ground arith,
                  inr (inr (inl (e, z, g, refl, calls))),
                )
                | inl g ↦
                    let (ends, closed) = finish-calls hal w2 p2 in
                    (
                      finish hal w2,
                      v,
                      ground arith,
                      inr (
                          inr (
                            inr (
                              e,
                              z,
                              g,
                              ends,
                              closed
                                  ∙ ap (λ l. l ++ stop ∷ cleanup ∷ []) calls
                                  ∙ append_assoc w1.calls (start ∷ []) (stop ∷ cleanup ∷ []),
                            ))),
                    )
              ]
        ]
      ]

  -- Whatever the thread finds, the test ends the same way and leaves the same state of the HAL: the
  -- verdict stays in `gps_result_type`, which the process takes with it when it exits.
  test_gps_start-verdict :
      (v v' : GpsResult) (k k' : ℕ)
      → ending (test_gps_start hal d (some (v, k)) r w)
        ≡ ending (test_gps_start hal d (some (v', k')) r w)
  unfolding test_gps_start
  test_gps_start-verdict v v' k k' = ground arith
