-- ===== src/Wifi/Scan.antt =====
-- Scanning and the verdict (ls_wifi_test.c): `wifiGetScanResult`, `wifiSyncScanAP`,
-- `wifiScanThread` and `wifi_result`. None is the fault of a line of the table.
use multi_test.Prelude.{
  ℕ, zero, suc, ◌+◌, Bool, false, not, ◌||◌, List, [], ◌∷◌, Option, none, some, ◌≡◌, refl, arith,
  take, length, ltb, ◌==◌, if◌then◌else◌,
}
use multi_test.Prelude.Int.{ℤ, pos, negsuc, pos_part, ltb_ℤ}
use multi_test.Prelude.Text.{Bytes, codes, contains, c_str, str_eq}
use multi_test.Wifi.{Wifi, WifiAp, Exec, wifi_max_ap}
use multi_test.Wifi.Layout.{memory_of}
use multi_test.Wifi.Results.{read_table}
use multi_test.Wifi.Command.{wifi_command, replies}

-- FACTORY_ZIB_WIFI_SSID
abbrev pub factory_ssid : Bytes
factory_ssid = codes "zib"

-- FACTORY_ZIB_SIG_LEVEL, -80
abbrev pub factory_sig_level : ℤ
factory_sig_level = negsuc 79

-- The array after its first entries have been written.
abbrev pub overlay : List WifiAp → List WifiAp → List WifiAp
overlay [] old = old
overlay (a ∷ found) [] = a ∷ found
overlay (a ∷ found) (o ∷ old) = a ∷ overlay found old

-- The entries that the loops up to `sAPNum` read.
abbrev pub entries : {S : Type 0} → Wifi S → List WifiAp
entries w = take (pos_part w.ap_num) w.aps

abbrev pub has_ssid : List WifiAp → Bool
has_ssid [] = false
has_ssid (ap ∷ aps) = str_eq ap.name factory_ssid || has_ssid aps

-- `wifi_result`: each entry of the factory network overwrites the verdict.
unfoldable pub wifi_result_loop : List WifiAp → Bool → Bool
wifi_result_loop [] r = r
wifi_result_loop (ap ∷ aps) r =
    wifi_result_loop aps
      (if str_eq ap.name factory_ssid then ltb_ℤ factory_sig_level ap.sig_level else r)

unfoldable pub wifi_result : {S : Type 0} → Wifi S → Wifi S
unfolding wifi_result_loop
wifi_result w = record w { test_result = wifi_result_loop (entries w) w.test_result }

module _ {S : Type 0} (exec : Exec S) where
  -- The part behind the command, on its reply.
  unfoldable pub store_results : ℕ → Option Bytes → Wifi S → Option (Wifi S × ℤ)
  unfolding read_table
  store_results maxnum none w = some (w, negsuc 1)
  store_results maxnum (some reply) w =
      if length reply == 0 || not (contains (codes "bssid") (c_str reply))
      then some (w, negsuc 1)
      else elim (read_table (memory_of reply) (length reply) maxnum) [
        | none ↦ none
        | some found ↦ some (record w { aps = overlay found w.aps }, pos (length found))
      ]

  unfoldable pub wifi_get_scan_result : ℕ → Wifi S → Option (Wifi S × ℤ)
  unfolding store_results wifi_command
  wifi_get_scan_result maxnum w =
      if maxnum == 0
      then some (w, negsuc 0)
      else let (w', reply) = wifi_command exec (codes "SCAN_RESULTS") 4096 w in
        store_results maxnum reply w'

  -- The wait for the results event, which has a time limit, is followed by the same steps either
  -- way.
  unfoldable pub wifi_sync_scan_ap : ℕ → Wifi S → Option (Wifi S × ℤ)
  unfolding wifi_get_scan_result
  wifi_sync_scan_ap maxnum w =
      if maxnum == 0
      then some (w, negsuc 0)
      else let (w', reply) = wifi_command exec (codes "SCAN") 64 w in
        if replies (codes "OK") reply then wifi_get_scan_result maxnum w' else some (w', negsuc 1)

  -- The `while (retryNum--)` loop of `wifiScanThread`.
  unfoldable pub scan_tries : ℕ → Wifi S → Option (Wifi S)
  unfolding wifi_sync_scan_ap
  scan_tries zero w = some w
  scan_tries (suc n) w = elim (wifi_sync_scan_ap wifi_max_ap w) [
    | none ↦ none
    | some (w', num) ↦
        let w'' = record w' { ap_num = num } in
        let again = scan_tries n w'' in
        if pos_part num == 0 then again else if has_ssid (entries w'') then some w'' else again
  ]

  -- The steps behind the loop.
  abbrev pub scan_finish : Wifi S → Wifi S
  scan_finish w = record w {
    status = record (w.status) {
      scanning = false;
      scan_end = w.status.scan_end || ltb 0 (pos_part w.ap_num);
    };
    sem = w.sem + 1;
  }

  unfoldable pub wifi_scan_thread : Wifi S → Option (Wifi S)
  unfolding scan_tries
  wifi_scan_thread w = elim (scan_tries 3 w) [ none ↦ none | some w' ↦ some (scan_finish w') ]

-- The level of the last entry of the factory network.
abbrev pub last_level : List WifiAp → Option ℤ
last_level [] = none
last_level (ap ∷ aps) = elim (last_level aps) [
  | none ↦ if str_eq ap.name factory_ssid then some ap.sig_level else none
  | some l ↦ some l
]

abbrev pub judged : Option ℤ → Bool → Bool
judged none r = r
judged (some l) r = ltb_ℤ factory_sig_level l

-- The verdict is that of the last entry of the factory network: pass exactly if its level is above
-- -80; with no such entry it stays as it was.
pub wifi_result_loop-judged :
    (aps : List WifiAp) (r : Bool) → wifi_result_loop aps r ≡ judged (last_level aps) r
unfolding wifi_result_loop
wifi_result_loop-judged [] r = refl
wifi_result_loop-judged (ap ∷ aps) r = ground (
  arith,
  wifi_result_loop-judged aps
      (if str_eq ap.name factory_ssid then ltb_ℤ factory_sig_level ap.sig_level else r),
)
