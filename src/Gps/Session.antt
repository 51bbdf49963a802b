-- ===== src/Gps/Session.antt =====
-- The GPS test (gps_test/gps_test.c): the thread `gps_processthread_show` and `test_gps_start`.
-- A round of the thread sees the time since its start and the satellites of `sGpsSvStatus`; `F`
-- stands for the type of their signal, and `strong` for the test `>= 35`.
use multi_test.Prelude.{
  ℕ, zero, suc, ◌+◌, ◌<◌, ◌≤◌, Bool, true, false, ◌&&◌, List, [], ◌∷◌, Option, none, some, ◌≡◌,
  arith, not, if◌then◌else◌, inl, inr, Bool-cases, ltb, length, ◌==◌,
}
use mathlib.Core.Path.{subst}
use multi_test.Prelude.Int.{is_zero, ℤ, pos, negsuc}
use multi_test.Gps.Provider.{Gps, Hal, Device, class_init, Callbacks, init}
use multi_test.Gps.Operations.{gps_start, gps_stop, gps_cleanup}

-- factory_gps_result_type_t, the values that the test sets.
pub data GpsResult : Type 0 where
  success : GpsResult
  fail : GpsResult
  testing : GpsResult

abbrev pub gps_test_time_out : ℕ
gps_test_time_out = 100

pub record Sky (F : Type 0) : Type 0 where
  pub elapsed : ℕ
  pub snrs : List F

module _ {F : Type 0} (strong : F → Bool) where
  unfoldable pub count_strong : List F → ℕ
  count_strong [] = 0
  count_strong (s ∷ ss) = (if strong s then 1 else 0) + count_strong ss

  -- `snr_count` behind a round: it is only changed if there are more than four satellites.
  unfoldable pub snr_count : ℕ → Sky F → ℕ
  unfolding count_strong
  snr_count count r = if ltb 4 (length r.snrs) then count + count_strong r.snrs else count

  -- The test that ends the loop with success.
  unfoldable pub catches : ℕ → Sky F → Bool
  unfolding snr_count
  catches count r = ltb 4 (length r.snrs) && ltb 0 (snr_count count r)

  -- The loop from round `k` on, by the rounds allowed: its result and last round, none if they do
  -- not suffice.
  unfoldable pub watch_loop : ℕ → ℕ → ℕ → (ℕ → Sky F) → Option (GpsResult × ℕ)
  unfolding catches
  watch_loop zero k count view = none
  watch_loop (suc n) k count view =
      let rest = watch_loop n (k + 1) (snr_count count (view k)) view in
      if catches count (view k)
      then some (success, k)
      else if ltb gps_test_time_out (view k).elapsed
      then some (fail, k)
      else rest

  -- Each round sleeps a second: 102 rounds pass the time limit.
  unfoldable pub gps_processthread_show : (ℕ → Sky F) → Option (GpsResult × ℕ)
  unfolding watch_loop
  gps_processthread_show view = watch_loop (gps_test_time_out + 2) 0 0 view

-- How the test ends: by a return, or by `exit`.
pub data Ending : Type 0 where
  returned : ℤ → Ending
  exited : ℤ → Ending

abbrev pub all_callbacks : Callbacks
all_callbacks = record { agps_cb = true; ni_cb = true; ril_cb = true; geofence_cb = true }

module _ {S D : Type 0} (hal : Hal S D) where
  unfoldable pub gps_close : Gps S D → Gps S D × Option Ending
  gps_close w =
      if w.ptrs.gps_ptr
      then (gps_cleanup hal (gps_stop hal w).0, some (exited (pos 0)))
      else (w, none)

  -- Behind the thread.
  unfoldable pub finish : Gps S D → Gps S D × Ending
  unfolding gps_close
  finish w =
      let (w', e) = gps_close w in elim e [ none ↦ (w', returned (pos 0)) | some x ↦ (w', x) ]

  abbrev return_with : ℤ → GpsResult → Gps S D → Option ((Gps S D × Ending) × GpsResult)
  return_with v r w = some ((w, returned v), r)

  -- `watched` is how the thread ends: its result and last round. `r` is `gps_result_type`.
  unfoldable pub test_gps_start :
      Device
      → Option (GpsResult × ℕ)
      → GpsResult
      → Gps S D
      → Option ((Gps S D × Ending) × GpsResult)
  unfolding finish
  test_gps_start d watched r w =
      let w0 : Gps S D = record w { ptrs = class_init d w.ptrs } in
      let (w1, inited) = init hal all_callbacks w0 in
      let (w2, started) = gps_start hal w1 in
      let end = finish w2 in
      if not w0.ptrs.gps_ptr
      then return_with (negsuc 0) r w0
      else if is_zero inited
      then return_with (pos 0) r w1
      else if is_zero started
      then return_with (negsuc 0) r w2
      else elim watched [ none ↦ none | some (v, k) ↦ some (end, v) ]

-- A round that neither catches the satellites nor passes the time limit; the rounds before `j`.
abbrev pub IsQuiet : {F : Type 0} → (F → Bool) → (ℕ → Sky F) → ℕ → Type 0
IsQuiet strong view i = (catches strong 0 (view i) ≡ false) × ((view i).elapsed ≤ gps_test_time_out)

abbrev pub Waited : {F : Type 0} → (F → Bool) → ℕ → (ℕ → Sky F) → Type 0
Waited strong j view = (i : ℕ) → i < j → IsQuiet strong view i

-- What the last round `j` decides.
abbrev pub Decides : {F : Type 0} → (F → Bool) → (ℕ → Sky F) → GpsResult × ℕ → Type 0
Decides strong view (success, j) = catches strong 0 (view j) ≡ true
Decides strong view (fail, j) =
    (catches strong 0 (view j) ≡ false) × (gps_test_time_out < (view j).elapsed)
Decides strong view (testing, j) = ⊥

module _ {F : Type 0} (strong : F → Bool) (view : ℕ → Sky F) where
  -- A round that does not catch leaves the count at 0.
  snr_count-zero : (r : Sky F) → catches strong 0 r ≡ false → snr_count strong 0 r ≡ 0
  unfolding catches snr_count
  snr_count-zero r e = ground arith

  waited :
      (k : ℕ)
      → Waited strong k view
      → catches strong 0 (view k) ≡ false
      → (view k).elapsed ≤ gps_test_time_out
      → Waited strong (k + 1) view
  waited k w e l i h = elim (Bool-cases (i == k)) [
    | inl q ↦ let same : k ≡ i = ground arith in subst (IsQuiet strong view) same (e, l)
    | inr q ↦ w i (ground arith)
  ]

  watch_loop-Decides :
      (n k : ℕ)
      → gps_test_time_out + 2 ≤ n + k
      → ((i : ℕ) → i ≤ (view i).elapsed)
      → Waited strong k view
      → (v : GpsResult) × (j : ℕ) × (watch_loop strong n k 0 view ≡ some (v, j))
        × Decides strong view (v, j)
        × Waited strong j view
  unfolding watch_loop
  watch_loop-Decides zero k h t w =
      let low = (w (gps_test_time_out + 1) (omega arith)).1 in
      let high = t (gps_test_time_out + 1) in absurd (omega arith)
  watch_loop-Decides (suc n) k h t w = elim (Bool-cases (catches strong 0 (view k))) [
    | inl e ↦ (success, k, ground arith, e, w)
    | inr e ↦ elim (Bool-cases (ltb gps_test_time_out (view k).elapsed)) [
      | inl l ↦ (fail, k, ground arith, (e, ground arith), w)
      | inr l ↦
          let (v, j, eq, dec, wait) =
            watch_loop-Decides n (k + 1) (omega arith) t (waited k w e (ground arith)) in
          (v, j, ground (arith, eq, snr_count-zero (view k) e), dec, wait)
    ]
  ]

  -- If each round takes a second at least, the thread ends within its rounds. It ends with success
  -- at the first round that has more than four satellites, one of them strong, and with failure at
  -- the first round past the time limit without them; whichever round is first decides.
  pub gps_processthread_show-Decides :
      ((i : ℕ) → i ≤ (view i).elapsed)
      → (v : GpsResult) × (j : ℕ) × (gps_processthread_show strong view ≡ some (v, j))
        × Decides strong view (v, j)
        × Waited strong j view
  unfolding gps_processthread_show
  gps_processthread_show-Decides t =
      watch_loop-Decides (gps_test_time_out + 2) 0 (omega arith) t (λ i h. absurd (omega arith))
