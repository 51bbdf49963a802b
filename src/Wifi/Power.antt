-- ===== src/Wifi/Power.antt =====
-- `eng_wifi_open` and `wifiClose` (ls_wifi_test.c). What the driver library's calls return is an
-- argument.
use multi_test.Prelude.{
  ℕ, zero, suc, ◌+◌, Bool, true, false, not, ◌&&◌, ◌||◌, [], ◌≡◌, refl, arith, if◌then◌else◌,
}
use multi_test.Prelude.Int.{ℤ, pos, negsuc}
use multi_test.Wifi.{
  Wifi, Status, call, load_driver, unload_driver, start_supplicant, stop_supplicant,
  connect_to_supplicant, close_supplicant_connection, down_interface,
}

-- `connects k` is whether the try made when `cnn_num` is k succeeds.
pub record Driver : Type 0 where
  pub loaded : Bool
  pub load_ok : Bool
  pub start_ok : Bool
  pub connects : ℕ → Bool

abbrev pub no_status : Status
no_status = record { opened = false; scanning = false; scan_end = false }

module _ {S : Type 0} where
  unfoldable pub wifi_close : Wifi S → Wifi S
  wifi_close w =
      let w' = record w { event_looping = false } in
      let w1 =
        call (call (call (call w' stop_supplicant) down_interface) unload_driver)
          close_supplicant_connection in
      record w1 { status = no_status; aps = []; ap_num = pos 0 }

  -- `while (cnn_num--)`: whether a try succeeds.
  unfoldable pub connect_tries : (ℕ → Bool) → ℕ → Wifi S → Wifi S × Bool
  connect_tries ok zero w = (w, false)
  connect_tries ok (suc n) w =
      let w' = call w connect_to_supplicant in
      let rest = connect_tries ok n w' in if ok n then (w', true) else rest

  -- Behind the loop.
  unfoldable pub finish_open : Wifi S → Bool → Wifi S × ℤ
  finish_open w false = (call (call w stop_supplicant) unload_driver, negsuc 2)
  finish_open w true = (
    record w {
      status = record { opened = true; scanning = false; scan_end = false };
      ap_num = negsuc 0;
      event_looping = true;
      test_result = false;
      sem = w.sem + 1;
    },
    pos 0,
  )

  unfoldable pub eng_wifi_open : Driver → Wifi S → Wifi S × ℤ
  unfolding wifi_close connect_tries finish_open
  eng_wifi_open d w =
      let w0 = if d.loaded then wifi_close w else w in
      let w1 = call w0 load_driver in
      if not d.load_ok
      then (w1, negsuc 0)
      else let w2 = call w1 start_supplicant in
        let w3 = if d.start_ok then w2 else call w2 unload_driver in
        let (w4, connected) = connect_tries d.connects 5 w3 in finish_open w4 connected

-- Whether one of the tries below `n` succeeds.
unfoldable pub connects_below : (ℕ → Bool) → ℕ → Bool
connects_below ok zero = false
connects_below ok (suc n) = ok n || connects_below ok n

-- A loop of tries changes nothing but the list of calls.
connect_tries-lem :
    {S : Type 0} (ok : ℕ → Bool) (n : ℕ) (w : Wifi S)
    → let r = connect_tries ok n w in
      (r.1 ≡ connects_below ok n) × (r.0.status ≡ w.status) × (r.0.sem ≡ w.sem)
unfolding connect_tries connects_below
connect_tries-lem ok zero w = (refl, refl, refl)
connect_tries-lem ok (suc n) w =
    ground (arith, connect_tries-lem ok n (call w connect_to_supplicant))

-- What an open that succeeds leaves behind.
abbrev pub IsOpened : {S : Type 0} → Wifi S → Wifi S × ℤ → Type 0
IsOpened w r =
    (r.1 ≡ pos 0)
    × (r.0.status ≡ record { opened = true; scanning = false; scan_end = false })
    × (r.0.sem ≡ w.sem + 1)
    × (r.0.event_looping ≡ true)
    × (r.0.test_result ≡ false)
    × (r.0.ap_num ≡ negsuc 0)

-- What one that fails leaves behind: -1 or -3, and the status of before, or none after a close.
abbrev pub IsNotOpened : {S : Type 0} → Driver → Wifi S → Wifi S × ℤ → Type 0
IsNotOpened d w r =
    (r.1 ≡ (if d.load_ok then negsuc 2 else negsuc 0))
    × (r.0.status ≡ (if d.loaded then no_status else w.status))
    × (r.0.sem ≡ w.sem)

-- The tries and what follows them.
finish_open-cases :
    {S : Type 0} (ok : ℕ → Bool) (w : Wifi S)
    → let (w', connected) = connect_tries ok 5 w in
      let r = finish_open w' connected in
      (connects_below ok 5 ≡ true → IsOpened w r)
      × (connects_below ok 5 ≡ false
          → (r.1 ≡ negsuc 2) × (r.0.status ≡ w.status) × (r.0.sem ≡ w.sem))
unfolding finish_open
finish_open-cases ok w =
    let l = connect_tries-lem ok 5 w in (λ h. ground (arith, l), λ h. ground (arith, l))

-- `eng_wifi_open` succeeds exactly if the driver loads and one of five tries to connect succeeds,
-- whether or not the supplicant was started, and then leaves the test opened; else it returns -1 or
-- -3 and leaves the status and the semaphore alone.
pub eng_wifi_open-cases :
    {S : Type 0} (d : Driver) (w : Wifi S)
    → let r = eng_wifi_open d w in
      ((d.load_ok && connects_below d.connects 5) ≡ true → IsOpened w r)
      × ((d.load_ok && connects_below d.connects 5) ≡ false → IsNotOpened d w r)
unfolding eng_wifi_open wifi_close
eng_wifi_open-cases d w =
    let w0 = if d.loaded then wifi_close w else w in
    let w1 = call w0 load_driver in
    let w2 = call w1 start_supplicant in
    let l1 = finish_open-cases d.connects w2 in
    let l2 = finish_open-cases d.connects (call w2 unload_driver) in
    (λ h. ground (arith, l1, l2), λ h. ground (arith, l1, l2))
