-- ===== src/Wifi/Bounds.antt =====
-- The number of access points (ls_wifi_test.c): `sAPNum` and the array `sAPs`, which every loop up to
-- that number reads.
use multi_test.Prelude.{
  ℕ, zero, suc, ◌+◌, ◌-◌, ◌≤◌, ◌≡◌, refl, not, List, [], ◌∷◌, Option, none, some, arith, length,
  ltb, ◌==◌, ◌||◌, Bool-cases, Option-cases, inl, inr,
}
use multi_test.Prelude.Int.{ℤ, pos_part}
use multi_test.Prelude.Text.{Bytes, codes, contains, c_str}
use multi_test.Wifi.{Wifi, Exec, WifiAp, wifi_max_ap}
use multi_test.Wifi.Line.{Memory, wifi_parse_line}
use multi_test.Wifi.Layout.{memory_of}
use multi_test.Wifi.Results.{read_table, scan_lines, prepend, line_end, skip_line}
use multi_test.Wifi.Command.{try_command, retry_command, wifi_command, replies}
use multi_test.Wifi.Scan.{
  overlay, store_results, wifi_get_scan_result, wifi_sync_scan_ap, scan_tries, wifi_scan_thread,
  entries, has_ssid,
}

-- The number is not above that of the entries written, and these fit the array.
pub record InBounds {S : Type 0} (w : Wifi S) : Type 0 where
  pub written : pos_part w.ap_num ≤ length w.aps
  pub fits : length w.aps ≤ wifi_max_ap

length-prepend :
    (ap : Option WifiAp) (aps : Option (List WifiAp)) (found : List WifiAp) (n : ℕ)
    → prepend ap aps ≡ some found
    → ((rest : List WifiAp) → aps ≡ some rest → length rest ≤ n)
    → length found ≤ suc n
length-prepend none aps found n h k = ground arith
length-prepend (some ap) none found n h k = ground arith
length-prepend (some ap) (some rest) found n h k = ground (arith, k rest refl)

length-scan_lines :
    (mem : Memory) (pend n p : ℕ) (found : List WifiAp)
    → scan_lines mem pend n p ≡ some found
    → length found ≤ n
unfolding scan_lines
length-scan_lines mem pend zero p found h = ground arith
length-scan_lines mem pend (suc n) p found h = elim (Bool-cases (ltb p pend)) [
  | inl e ↦
      let end = line_end mem (pend - p) p in
      length-prepend (wifi_parse_line mem p end) (scan_lines mem pend n (end + 1)) found n
        (rw e at h) (λ rest k. length-scan_lines mem pend n (end + 1) rest k)
  | inr e ↦ ground arith
]

length-overlay :
    (found old : List WifiAp) (n : ℕ)
    → length found ≤ n
    → length old ≤ n
    → (length found ≤ length (overlay found old)) × (length (overlay found old) ≤ n)
length-overlay [] old n h k = (omega arith, k)
length-overlay (a ∷ found) [] n h k = (omega arith, h)
length-overlay (a ∷ found) (o ∷ old) zero h k = absurd (omega arith)
length-overlay (a ∷ found) (o ∷ old) (suc n) h k =
    omega (arith, length-overlay found old n (omega arith) (omega arith))

module _ {S : Type 0} (exec : Exec S) where
  retry_command-InBounds :
      (n : ℕ) (text : Bytes) (size : ℕ) (w : Wifi S)
      → InBounds w
      → InBounds (retry_command exec n text size w).0
  unfolding retry_command try_command
  retry_command-InBounds zero text size w b = b
  retry_command-InBounds (suc n) text size w b =
      let w' = (try_command exec text size w).0 in
      let b' : InBounds w' = record { written = b.written; fits = b.fits } in
      ground (
        arith,
        Option-cases (try_command exec text size w).1,
        retry_command-InBounds n text size w' b',
      )

  pub wifi_command-InBounds :
      (cmd : Bytes) (size : ℕ) (w : Wifi S) → InBounds w → InBounds (wifi_command exec cmd size w).0
  unfolding wifi_command
  wifi_command-InBounds cmd size w b = retry_command-InBounds 3 _ _ w b

  -- What a scan that gives `num` leaves behind.
  abbrev Scanned : Wifi S × ℤ → Type 0
  Scanned (w, num) = InBounds (record w { ap_num = num })

  store_results-Scanned :
      (reply : Option Bytes) (w : Wifi S) (r : Wifi S × ℤ)
      → InBounds w
      → store_results exec wifi_max_ap reply w ≡ some r
      → Scanned r
  unfolding store_results read_table
  store_results-Scanned none w r b h = ground arith
  store_results-Scanned (some reply) w r b h =
      elim (Bool-cases (length reply == 0 || not (contains (codes "bssid") (c_str reply)))) [
        | inl e ↦ ground arith
        | inr e ↦
            let mem = memory_of reply in
            let start = skip_line mem (length reply - 1) 0 in
            elim (Option-cases (scan_lines mem (length reply) wifi_max_ap start)) [
              | inl f ↦ ground arith
              | inr (found, f) ↦ ground (
                arith,
                length-scan_lines mem (length reply) wifi_max_ap start found f,
                length-overlay found w.aps wifi_max_ap,
              )
            ]
      ]

  wifi_get_scan_result-Scanned :
      (w : Wifi S) (r : Wifi S × ℤ)
      → InBounds w
      → wifi_get_scan_result exec wifi_max_ap w ≡ some r
      → Scanned r
  unfolding wifi_get_scan_result
  wifi_get_scan_result-Scanned w r b h =
      let (w', reply) = wifi_command exec (codes "SCAN_RESULTS") 4096 w in
      store_results-Scanned reply w' r (wifi_command-InBounds (codes "SCAN_RESULTS") 4096 w b) h

  wifi_sync_scan_ap-Scanned :
      (w : Wifi S) (r : Wifi S × ℤ)
      → InBounds w
      → wifi_sync_scan_ap exec wifi_max_ap w ≡ some r
      → Scanned r
  unfolding wifi_sync_scan_ap
  wifi_sync_scan_ap-Scanned w r b h =
      let (w', reply) = wifi_command exec (codes "SCAN") 64 w in
      let b' : InBounds w' = wifi_command-InBounds (codes "SCAN") 64 w b in
      elim (Bool-cases (replies (codes "OK") reply)) [
        | inl e ↦ wifi_get_scan_result-Scanned w' r b' (rw e at h)
        | inr e ↦ ground arith
      ]

  scan_tries-InBounds :
      (n : ℕ) (w v : Wifi S) → InBounds w → scan_tries exec n w ≡ some v → InBounds v
  unfolding scan_tries
  scan_tries-InBounds zero w v b h = ground arith
  scan_tries-InBounds (suc n) w v b h = elim (Option-cases (wifi_sync_scan_ap exec wifi_max_ap w)) [
    | inl e ↦ ground arith
    | inr ((w', num), e) ↦
        let w'' : Wifi S = record w' { ap_num = num } in
        let b'' : InBounds w'' = wifi_sync_scan_ap-Scanned w (w', num) b e in
        ground (
          arith,
          Bool-cases (pos_part num == 0),
          Bool-cases (has_ssid (entries w'')),
          scan_tries-InBounds n w'' v b'',
        )
  ]

  pub wifi_scan_thread-InBounds :
      (w v : Wifi S) → InBounds w → wifi_scan_thread exec w ≡ some v → InBounds v
  unfolding wifi_scan_thread
  wifi_scan_thread-InBounds w v b h = elim (Option-cases (scan_tries exec 3 w)) [
    | inl e ↦ ground arith
    | inr (w', e) ↦ ground (arith, scan_tries-InBounds 3 w w' b e)
  ]
