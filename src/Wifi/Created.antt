-- ===== src/Wifi/Created.antt =====
-- How a test comes to create its scan thread (ls_wifi_test.c).
use multi_test.Prelude.{ℕ, zero, suc, Bool, true, false, ◌&&◌, ◌≡◌, refl, arith, if◌then◌else◌}
use multi_test.Wifi.{
  call, load_driver, unload_driver, start_supplicant, connect_to_supplicant, Wifi, Exec,
}
use multi_test.Wifi.TestRun.{start_thread}
use multi_test.Wifi.Power.{
  Driver, connects_below, connect_tries, finish_open, wifi_close, eng_wifi_open,
  eng_wifi_open-cases,
}
use multi_test.Wifi.TestRun.{scan_when_open, eng_wifi_get_scan_result, eng_wifi_scan_start}

-- The state in which the scan thread is created by a test that opens wifi.
abbrev pub at_creation : {S : Type 0} → Driver → Wifi S → Wifi S
at_creation d w = record (eng_wifi_open d (record w { sem = 0 })).0 {
  sem = 0;
  status = record { opened = true; scanning = true; scan_end = false };
}

module _ {S : Type 0} where
  connect_tries-test_over :
      (ok : ℕ → Bool) (n : ℕ) (w : Wifi S) → (connect_tries ok n w).0.test_over ≡ w.test_over
  unfolding connect_tries
  connect_tries-test_over ok zero w = refl
  connect_tries-test_over ok (suc n) w =
      ground (arith, connect_tries-test_over ok n (call w connect_to_supplicant))

  finish_open-test_over : (w : Wifi S) (b : Bool) → (finish_open w b).0.test_over ≡ w.test_over
  unfolding finish_open
  finish_open-test_over w true = refl
  finish_open-test_over w false = refl

  pub eng_wifi_open-test_over :
      (d : Driver) (w : Wifi S) → (eng_wifi_open d w).0.test_over ≡ w.test_over
  unfolding eng_wifi_open wifi_close
  eng_wifi_open-test_over d w =
      let w0 = if d.loaded then wifi_close w else w in
      let w2 = call (call w0 load_driver) start_supplicant in
      let w3 = if d.start_ok then w2 else call w2 unload_driver in
      let w4 = connect_tries d.connects 5 w3 in
      ground (arith, connect_tries-test_over d.connects 5 w3, finish_open-test_over w4.0 w4.1)

module _ {S : Type 0} (exec : Exec S) where
  -- From wifi open and idle with its post.
  scan_when_open-created :
      (w : Wifi S)
      → w.status ≡ record { opened = true; scanning = false; scan_end = false }
      → w.sem ≡ 1
      → scan_when_open exec w
        ≡ start_thread exec (record w {
          sem = 0;
          status = record { opened = true; scanning = true; scan_end = false };
        })
  unfolding scan_when_open eng_wifi_get_scan_result
  scan_when_open-created w s p = ground arith

  pub eng_wifi_scan_start-created :
      (d : Driver) (w : Wifi S)
      → w.status.opened ≡ false
      → (d.load_ok && connects_below d.connects 5) ≡ true
      → eng_wifi_scan_start exec d w ≡ start_thread exec (at_creation d w)
  unfolding eng_wifi_scan_start
  eng_wifi_scan_start-created d w h e =
      let w0 : Wifi S = record w { sem = 0 } in
      let o = (eng_wifi_open-cases d w0).0 e in
      ground (arith, o, scan_when_open-created (eng_wifi_open d w0).0 o.1 o.2)
