-- ===== src/Wifi/Threads.antt =====
-- The threads of a running test (ls_wifi_test.c), a turn at a time: `wifiScanThread`, the end of
-- `test_wifi_start` behind the start of that thread, and `get_wifi_test_result`, which another thread
-- calls. None is the fault of a line of the table.
use multi_test.Prelude.{
  ℕ, zero, suc, ◌+◌, ◌-◌, Bool, true, false, ◌&&◌, ◌||◌, List, [], ◌∷◌, Option, some, if◌then◌else◌,
  ltb, ◌==◌,
}
use multi_test.Prelude.Int.{pos_part, ltb_ℤ}
use multi_test.Prelude.Text.{str_eq}
use multi_test.Prelude.Fault.{◌>>=◌}
use multi_test.Wifi.{Wifi, Exec, WifiAp, wifi_max_ap}
use multi_test.Wifi.Scan.{factory_ssid, factory_sig_level, entries, has_ssid, wifi_sync_scan_ap}

-- Where the scan thread stands: before the loop's test, by the tries left, and before each of the steps
-- behind the loop.
pub data Scanner : Type 0 where
  tries : ℕ → Scanner
  clears marks posts over : Scanner

-- Where the test stands: in its second wait, before its look at the status, in the loop of `wifi_result`
-- with the entries left, before it sets its flag, at its end with its value.
pub data Tester : Type 0 where
  waiting looking : Tester
  judging : List WifiAp → Tester
  flagging finished : ℕ → Tester

-- Where `get_wifi_test_result` stands: in its loop, or at its end with its value.
pub data Asker : Type 0 where
  polling : Asker
  answered : ℕ → Asker

pub record Threads (S : Type 0) : Type 0 where
  pub mem : Wifi S
  pub scanner : Scanner
  pub tester : Tester
  pub asker : Asker

abbrev pub verdict_of : Bool → ℕ
verdict_of result = if result then 1 else 0

-- An entry in the loop of `wifi_result`.
abbrev pub judge_entry : WifiAp → Bool → Bool
judge_entry ap r = if str_eq ap.name factory_ssid then ltb_ℤ factory_sig_level ap.sig_level else r

-- Whose turn it is.
pub data Turn : Type 0 where
  scans tests asks : Turn

module _ {S : Type 0} where
  -- Behind a try.
  unfoldable pub after_try : ℕ → Wifi S → Scanner
  after_try n w =
      if pos_part w.ap_num == 0 then tries n else if has_ssid (entries w) then clears else tries n

  unfoldable pub test_turn : Tester → Wifi S → Wifi S × Tester
  test_turn waiting w = if w.sem == 0 then (w, waiting) else (record w { sem = w.sem - 1 }, looking)
  test_turn looking w = (
    w,
    (if w.status.scan_end && ltb 0 (pos_part w.ap_num) then judging (entries w) else flagging 0),
  )
  test_turn (judging []) w = (w, flagging (verdict_of w.test_result))
  test_turn (judging (ap ∷ aps)) w =
      (record w { test_result = judge_entry ap w.test_result }, judging aps)
  test_turn (flagging n) w = (record w { test_over = true }, finished n)
  test_turn (finished n) w = (w, finished n)

  unfoldable pub ask_turn : Asker → Wifi S → Asker
  ask_turn polling w = if w.test_over then answered (verdict_of w.test_result) else polling
  ask_turn (answered n) w = answered n

module _ {S : Type 0} (exec : Exec S) where
  unfoldable pub scan_turn : Scanner → Wifi S → Option (Wifi S × Scanner)
  unfolding wifi_sync_scan_ap after_try
  scan_turn (tries zero) w = some (w, clears)
  scan_turn (tries (suc n)) w = wifi_sync_scan_ap exec wifi_max_ap w >>= λ (w', num).
      some (record w' { ap_num = num }, after_try n (record w' { ap_num = num }))
  scan_turn clears w = some (record w { status = record (w.status) { scanning = false } }, marks)
  scan_turn marks w = some (
    record w {
      status = record (w.status) { scan_end = w.status.scan_end || ltb 0 (pos_part w.ap_num) };
    },
    posts,
  )
  scan_turn posts w = some (record w { sem = w.sem + 1 }, over)
  scan_turn over w = some (w, over)

  unfoldable pub turn : Turn → Threads S → Option (Threads S)
  unfolding scan_turn test_turn ask_turn
  turn scans t = scan_turn t.scanner t.mem >>= λ (w, s). some (record t { mem = w; scanner = s })
  turn tests t = let (w, p) = test_turn t.tester t.mem in some (record t { mem = w; tester = p })
  turn asks t = some (record t { asker = ask_turn t.asker t.mem })

  unfoldable pub turns : List Turn → Threads S → Option (Threads S)
  unfolding turn
  turns [] t = some t
  turns (u ∷ us) t = turn u t >>= turns us

-- The threads when the scan thread is created.
abbrev pub created : {S : Type 0} → Wifi S → Threads S
created w = record { mem = w; scanner = tries 3; tester = waiting; asker = polling }
