-- ===== src/Wifi/Verdict.antt =====
-- What the wifi test comes to (ls_wifi_test.c): when it ends, and what its verdict means.
use multi_test.Prelude.{
  ℕ, zero, suc, ◌+◌, ◌-◌, true, false, ◌&&◌, ◌||◌, not, ltb, ◌∙◌, take, if◌then◌else◌, ◌↔◌, List,
  Option, none, some, ◌≡◌, ◌≢◌, ◌⊎◌, inl, inr, refl, arith, Bool-cases, Option-cases,
}
use multi_test.Prelude.Int.{ℤ, pos, negsuc, ltb_ℤ, pos_part}
use multi_test.Prelude.Text.{Bytes, codes}
use multi_test.Wifi.{Wifi, WifiAp, Exec, wifi_max_ap}
use multi_test.Wifi.Command.{
  try_command, retry_command, wifi_command, wifi_cmd_retry_num, interface_cmd,
}
use multi_test.Wifi.Scan.{
  factory_sig_level, entries, store_results, wifi_get_scan_result, wifi_sync_scan_ap, scan_tries,
  wifi_scan_thread, wifi_result, last_level, judged, wifi_result_loop-judged,
}
use multi_test.Wifi.Power.{Driver, eng_wifi_open, eng_wifi_open-cases, connects_below}
use multi_test.Wifi.TestRun.{
  fault, blocked, done, number, scan_when_open, eng_wifi_get_scan_result, eng_wifi_scan_start,
  judge, test_wifi_start,
}

-- What the commands of a scan leave alone.
abbrev pub Same : {S : Type 0} → Wifi S → Wifi S → Type 0
Same w w' =
    (w'.status ≡ w.status)
    × (w'.sem ≡ w.sem)
    × (w'.test_result ≡ w.test_result)
    × (w'.test_over ≡ w.test_over)

-- A scan that found entries says so.
abbrev pub HasEnded : {S : Type 0} → Wifi S → Type 0
HasEnded w = (w.status.scan_end || not (ltb 0 (pos_part w.ap_num))) ≡ true

-- The last entry of the factory network has a level above -80.
abbrev pub IsStrong : List WifiAp → Type 0
IsStrong aps = (l : ℤ) × (last_level aps ≡ some l) × (ltb_ℤ factory_sig_level l ≡ true)

module _ {S : Type 0} (exec : Exec S) where
  -- A test that is started when wifi is open and no scan is running waits for ever at its first
  -- wait: the semaphore is set to 0 and only opening posts it.
  test_wifi_start-opened_blocks :
      (d : Driver) (w : Wifi S)
      → w.status.opened ≡ true
      → test_wifi_start exec d w ≡ blocked (record w { sem = 0 })
  unfolding test_wifi_start eng_wifi_scan_start scan_when_open
  test_wifi_start-opened_blocks d w h = ground arith

  retry_command-Same :
      (n : ℕ) (text : Bytes) (size : ℕ) (w : Wifi S) → Same w (retry_command exec n text size w).0
  unfolding retry_command
  retry_command-Same zero text size w = (refl, refl, refl, refl)
  retry_command-Same (suc n) text size w =
      ground (arith, retry_command-Same n text size (try_command exec text size w).0)

  wifi_command-Same :
      (cmd : Bytes) (size : ℕ) (w : Wifi S) → Same w (wifi_command exec cmd size w).0
  unfolding wifi_command
  wifi_command-Same cmd size w =
      retry_command-Same wifi_cmd_retry_num (interface_cmd cmd) (size - 1) w

  store_results-Same :
      (maxnum : ℕ) (reply : Option Bytes) (w : Wifi S) {w' : Wifi S} {n : ℤ}
      → store_results exec maxnum reply w ≡ some (w', n)
      → Same w w'
  unfolding store_results
  store_results-Same maxnum none w h = ground arith
  store_results-Same maxnum (some reply) w h = ground arith

  wifi_get_scan_result-Same :
      (maxnum : ℕ) (w : Wifi S) {w' : Wifi S} {n : ℤ}
      → wifi_get_scan_result exec maxnum w ≡ some (w', n)
      → Same w w'
  unfolding wifi_get_scan_result
  wifi_get_scan_result-Same maxnum w h =
      let (w1, reply) = wifi_command exec (codes "SCAN_RESULTS") 4096 w in
      ground
        (arith, wifi_command-Same (codes "SCAN_RESULTS") 4096 w, store_results-Same maxnum reply w1)

  pub wifi_sync_scan_ap-Same :
      (maxnum : ℕ) (w : Wifi S) {w' : Wifi S} {n : ℤ}
      → wifi_sync_scan_ap exec maxnum w ≡ some (w', n)
      → Same w w'
  unfolding wifi_sync_scan_ap
  wifi_sync_scan_ap-Same maxnum w h =
      let (w1, reply) = wifi_command exec (codes "SCAN") 64 w in
      ground (arith, wifi_command-Same (codes "SCAN") 64 w, wifi_get_scan_result-Same maxnum w1)

  scan_tries-Same : (n : ℕ) (w : Wifi S) {w' : Wifi S} → scan_tries exec n w ≡ some w' → Same w w'
  unfolding scan_tries
  scan_tries-Same zero w h = ground arith
  scan_tries-Same (suc n) w {w' = v} h =
      elim (Option-cases (wifi_sync_scan_ap exec wifi_max_ap w)) [
        | inl e ↦ ground arith
        | inr ((w1, num), e) ↦ ground (
          arith,
          wifi_sync_scan_ap-Same wifi_max_ap w e,
          scan_tries-Same n (record w1 { ap_num = num }) {w' = v},
        )
      ]

  wifi_scan_thread-Same :
      (w : Wifi S) {w' : Wifi S}
      → wifi_scan_thread exec w ≡ some w'
      → (w'.sem ≡ w.sem + 1) × (w'.test_result ≡ w.test_result) × HasEnded w'
  unfolding wifi_scan_thread
  wifi_scan_thread-Same w h = elim (Option-cases (scan_tries exec 3 w)) [
    | inl e ↦ ground arith
    | inr (w1, e) ↦ ground (arith, scan_tries-Same 3 w e)
  ]

  -- From wifi open and idle with one post of the semaphore, the scan runs to its end.
  scan_when_open-idle :
      (w : Wifi S)
      → w.status ≡ record { opened = true; scanning = false; scan_end = false }
      → w.sem ≡ 1
      → (scan_when_open exec w ≡ fault)
        ⊎ ((w' : Wifi S) × (scan_when_open exec w ≡ done w' (pos 0))
            × (w'.sem ≡ 1)
            × (w'.test_result ≡ w.test_result)
            × HasEnded w')
  unfolding scan_when_open eng_wifi_get_scan_result
  scan_when_open-idle w s p =
      let w0 : Wifi S = record w {
        sem = 0;
        status = record { opened = true; scanning = true; scan_end = false };
      } in
      elim (Option-cases (wifi_scan_thread exec w0)) [
        | inl e ↦ inl (ground arith)
        | inr (w1, e) ↦ inr (
          w1,
          ground arith,
          ground (arith, wifi_scan_thread-Same w0 e),
          ground (arith, wifi_scan_thread-Same w0 e),
          ground (arith, wifi_scan_thread-Same w0 e),
        )
      ]

  -- A start from the closed state: a fault, a refusal, or a scan that has ended.
  pub eng_wifi_scan_start-fresh :
      (d : Driver) (w : Wifi S)
      → w.status.opened ≡ false
      → (eng_wifi_scan_start exec d w ≡ fault)
        ⊎ ((w' : Wifi S) × (eng_wifi_scan_start exec d w ≡ done w' (negsuc 0)))
        ⊎ ((w' : Wifi S) × (eng_wifi_scan_start exec d w ≡ done w' (pos 0))
            × (w'.sem ≡ 1)
            × (w'.test_result ≡ false)
            × HasEnded w')
  unfolding eng_wifi_scan_start
  eng_wifi_scan_start-fresh d w h =
      let w0 : Wifi S = record w { sem = 0 } in
      let (w1, ret) = eng_wifi_open d w0 in
      let (good, bad) = eng_wifi_open-cases d w0 in
      elim (Bool-cases (d.load_ok && connects_below d.connects 5)) [
        | inl e ↦
            let o = good e in
            elim (scan_when_open-idle w1 o.1 o.2) [
              | inl f ↦ inl (ground (arith, o, f))
              | inr (w2, f, s, t, c) ↦
                  inr (inr (w2, ground (arith, o, f), ground arith, ground (arith, o, t), c))
            ]
        | inr e ↦ let o = bad e in inr (inl (w1, ground (arith, o)))
      ]

  -- A test that is started with wifi closed never waits for ever. (It may meet the fault of a line.)
  test_wifi_start-ends :
      (d : Driver) (w v : Wifi S) → w.status.opened ≡ false → test_wifi_start exec d w ≢ blocked v
  unfolding test_wifi_start
  test_wifi_start-ends d w v h = elim (eng_wifi_scan_start-fresh d w h) [
    | inl f ↦ λ e. ground arith
    | inr (inl (w1, f)) ↦ λ e. ground arith
    | inr (inr (w1, f, s, t, c)) ↦ λ e. ground arith
  ]

last_level-take :
    (n : ℕ) (aps : List WifiAp) (l : ℤ) → last_level (take n aps) ≡ some l → ltb 0 n ≡ true
last_level-take zero aps l h = ground arith
last_level-take (suc n) aps l h = ground arith

module _ {S : Type 0} where
  entries-judge : (w : Wifi S) → entries (judge w).0 ≡ entries w
  unfolding judge wifi_result
  entries-judge w = ground arith

  judge-number :
      (w : Wifi S)
      → ltb 0 (pos_part w.ap_num) ≡ true
      → HasEnded w
      → (judge w).1 ≡ number (if judged (last_level (entries w)) w.test_result then 1 else 0)
  unfolding judge wifi_result
  judge-number w f c = ground (arith, wifi_result_loop-judged (entries w) w.test_result)

  -- The number of a judged scan is 1 exactly if the last entry of the factory network is strong.
  pub judge-pass :
      (w : Wifi S)
      → w.test_result ≡ false
      → HasEnded w
      → (((judge w).1 ≡ number 1) ↔ IsStrong (entries (judge w).0))
  unfolding judge wifi_result
  judge-pass w t c = elim (Option-cases (last_level (entries w))) [
    | inl e ↦ (
      (λ h. absurd (ground (arith, wifi_result_loop-judged (entries w) w.test_result))),
      (λ (l, f, s). absurd (ground arith)),
    )
    | inr (l, e) ↦ (
      (λ h. (l, ground arith, ground (arith, wifi_result_loop-judged (entries w) w.test_result))),
      (λ (k, f, s).
          let found = last_level-take (pos_part w.ap_num) w.aps l e in
          let n = judge-number w found c in
          let same : last_level (entries w) ≡ some k = rw (entries-judge w) at f in
          n ∙ rw same (rw s refl)),
    )
  ]
