-- ===== src/Tests/Wifi.antt =====
-- The wifi test at concrete inputs (ls_wifi_test.c), with a supplicant that answers from a script.
use multi_test.Prelude.{
  Bool, ◌&&◌, ◌||◌, ℕ, ◌≡◌, ◌↔◌, refl, ◌++◌, List, [], ◌∷◌, true, false, Option, none, some, arith,
  ◌==◌,
}
use multi_test.Prelude.Int.{ℤ, pos, negsuc}
use multi_test.Prelude.Text.{Bytes, codes}
use multi_test.Prelude.Strtol.{strtol}
use multi_test.Prelude.Decimal.{print_dec, strtol-print_dec}
use multi_test.Wifi.{Wifi, Exec}
use multi_test.Wifi.Line.{store_fields, wifi_parse_line}
use multi_test.Wifi.Results.{line_end}
use multi_test.Wifi.RoundTrip.{Row, render_rows, stored}
use multi_test.Wifi.Command.{wifi_command}
use multi_test.Wifi.Scan.{wifi_scan_thread, entries}
use multi_test.Wifi.Power.{Driver, no_status, wifi_close, connects_below, eng_wifi_open}
use multi_test.Wifi.TestRun.{Run, fault, blocked, done, number, test_wifi_start}
use multi_test.Wifi.Verdict.{IsStrong}
use multi_test.Prelude.Fault.{◌>>=◌}
use multi_test.Wifi.Connect.{connected, connecting, disabled_auth_failure}
use multi_test.Wifi.Handshake.{Handshake, wants, left, connects, times_out, loops, moves}
use multi_test.Wifi.Stalled.{moves-stalled}
use multi_test.Wifi.Mutex.{inside, keeps}
use multi_test.Wifi.Returned.{Comes, moves-Excludes}
use multi_test.Wifi.Threads.{
  Threads, Turn, scans, tests, asks, Tester, finished, Asker, answered, turns, created,
}
use multi_test.Wifi.Created.{at_creation}
use multi_test.Wifi.Interleaved.{Follows, turns-Follows}
use multi_test.Wifi.Ending.{Ended, turns-Ended}
use multi_test.Wifi.Start.{get_wifi_test_result, test_wifi_start-result}
use multi_test.Wifi.Network.{wifi_add_network, wifi_add_network-Sends, added_id, Sends, setup_cmds}
use multi_test.Wifi.Bounds.{InBounds}
use multi_test.Wifi.Steps.{at_start, begins, goes_on, tested, closes, Reached-InBounds}
use multi_test.Wifi.Searches.{null, minus_one, offset, wifi_str_skip_space, wifi_str_find_char}
use multi_test.Wifi.Dhcp.{Lease, resolver_cmd}

-- Each command takes the next answer of the script.
abbrev Script : Type 0
Script = List (Option Bytes)

abbrev answer : Exec Script
answer [] text size = ([], none)
answer (r ∷ rs) text size = (rs, r)

abbrev closed : Script → Wifi Script
closed rs = record {
  sup = rs;
  sent = [];
  calls = [];
  status = no_status;
  ap_num = pos 0;
  aps = [];
  connect_status = 0;
  event_looping = false;
  sem = 0;
  test_result = false;
  test_over = false;
}

abbrev home : Row
home = record {
  mac = codes "00:11:22:33:44:55";
  freq = codes "2437";
  level = codes "-45";
  flags = codes "[ESS]";
  ssid = codes "zib";
}

abbrev heading : Bytes
heading = codes "bssid / frequency / signal level / flags / ssid"

abbrev table : Bytes
table = heading ++ b'\n' ∷ render_rows (home ∷ [])

stored-home :
    stored home
    ≡ some (record {
      smac = codes "00:11:22:33:44:55";
      name = codes "zib";
      sig_level = negsuc 44;
      frequency = pos 2437;
    })
unfolding store_fields strtol
stored-home = refl

abbrev good_driver : Driver
good_driver = record { loaded = false; load_ok = true; start_ok = true; connects = λ n. n == 3 }

abbrev opened : Wifi Script
opened = record (closed []) {
  status = record { opened = true; scanning = false; scan_end = true };
  sem = 0;
}

abbrev ok : Option Bytes
ok = some (codes "OK\n")

abbrev adding : Wifi Script
adding = closed (some (codes "3\n") ∷ ok ∷ none ∷ ok ∷ ok ∷ ok ∷ [])

-- The state at the end of a run.
abbrev state_of : {S A : Type 0} → Wifi S → Run S A → Wifi S
state_of w fault = w
state_of w (blocked v) = v
state_of w (done v a) = v

abbrev added : Wifi Script
added = state_of adding (wifi_add_network answer (codes "zib") (codes "secret") adding)

wifi_add_network-Sends_example :
    (added_id (wifi_command answer (codes "ADD_NETWORK") 64 adding).1 ≡ some 3)
    × Sends [] added.sent (codes "ADD_NETWORK" ∷ setup_cmds 3 (codes "zib") (codes "secret"))
unfolding wifi_add_network wifi_command print_dec
wifi_add_network-Sends_example =
    wifi_add_network-Sends answer (codes "zib") (codes "secret") adding added 3 refl

abbrev failing : Wifi Script
failing = closed (some (codes "FAIL\n") ∷ [])

abbrev scanning : Wifi Script
scanning = closed (ok ∷ some table ∷ [])

abbrev scanned : Wifi Script
scanned = state_of scanning (test_wifi_start answer good_driver scanning)

test_wifi_start-result_example :
    (◌≡◌ {A = ℕ} 1 1 ↔ IsStrong (entries scanned))
    × (get_wifi_test_result scanned ≡ done scanned (pos 1))
unfolding test_wifi_start wifi_command store_fields strtol wifi_scan_thread wifi_parse_line line_end
test_wifi_start-result_example =
    test_wifi_start-result answer good_driver scanning scanned 1 refl refl

-- The test waits, another thread asks, the scan ends, and both come to their ends.
abbrev some_turns : List Turn
some_turns =
    tests ∷ scans ∷ asks ∷ scans ∷ scans ∷ scans ∷ tests ∷ tests ∷ asks ∷ tests ∷ tests ∷ tests
    ∷ asks ∷ []

turns-Follows_example :
    Follows
      (test_wifi_start answer good_driver scanning)
      (turns answer some_turns (created (at_creation good_driver scanning)))
unfolding connects_below
turns-Follows_example = turns-Follows answer some_turns good_driver scanning refl refl refl

-- All three threads have ended.
abbrev ends : Option (Threads Script) → Option (Tester × Asker)
ends none = none
ends (some t) = some (t.tester, t.asker)

turns-end :
    ends (turns answer some_turns (created (at_creation good_driver scanning)))
    ≡ some (finished 1, answered 1)
unfolding turns wifi_command store_fields strtol wifi_parse_line line_end eng_wifi_open
turns-end = refl

turns-Ended_example :
    (more : List Turn) × Ended
      (turns answer (scans ∷ tests ∷ []) (created scanning) >>= turns answer more)
turns-Ended_example = turns-Ended answer (scans ∷ tests ∷ []) scanning refl refl refl

strtol-print_dec_example : (strtol 10 (print_dec 2437)).0 ≡ pos 2437
strtol-print_dec_example = strtol-print_dec 2437 (omega arith)

Reached-InBounds_example : InBounds (wifi_close scanned)
unfolding test_wifi_start wifi_command store_fields strtol wifi_scan_thread wifi_parse_line line_end
    at_start
Reached-InBounds_example = Reached-InBounds answer (ok ∷ some table ∷ []) (wifi_close scanned) (
    goes_on (goes_on begins (tested good_driver scanning scanned (number 1) refl)) (closes scanned))

-- An answer with one name server.
abbrev lease : Lease
lease = record {
  gateway = codes "192.168.1.1";
  dns1 = codes "192.168.1.1";
  dns2 = [];
  dns3 = [];
  dns4 = [];
}

resolver_cmd-lease :
    resolver_cmd (λ text dns. none) lease
    ≡ some (codes "ndc resolver setifdns wlan0 \"\" 192.168.1.1")
unfolding resolver_cmd
resolver_cmd-lease = refl

-- Behind a refusal for a wrong key, a connection and the results of a scan are told.
abbrev refused : Handshake
refused = record {
  status = disabled_auth_failure;
  held = true;
  connector = left (pos disabled_auth_failure) true;
  todo = [];
  evts =
      none
      ∷ some (codes "<3>CTRL-EVENT-CONNECTED")
      ∷ some (codes "<3>CTRL-EVENT-SCAN-RESULTS")
      ∷ [];
}

moves-stalled_example :
    let t' = moves (λ k. true) (loops ∷ loops ∷ connects ∷ loops ∷ loops ∷ loops ∷ []) refused in
    (t'.held ≡ true)
    × ((more : List (Option Bytes)) × (t'.evts
          ≡ more ++ some (codes "<3>CTRL-EVENT-SCAN-RESULTS") ∷ []))
moves-stalled_example =
    moves-stalled (pos disabled_auth_failure) (some (codes "<3>CTRL-EVENT-CONNECTED"))
      (some (codes "<3>CTRL-EVENT-SCAN-RESULTS") ∷ []) refl (λ k. true)
      (loops ∷ loops ∷ connects ∷ loops ∷ loops ∷ loops ∷ []) refused (none ∷ []) refl refl refl
      refl (refl, tt)

-- A connection that is told during the wait.
abbrev connecting_ : Handshake
connecting_ = record refused {
  status = connecting;
  held = false;
  connector = wants;
  evts = some (codes "<3>CTRL-EVENT-CONNECTED") ∷ [];
}

moves-connected :
    (moves
      (λ k. true)
      (connects ∷ loops ∷ loops ∷ loops ∷ loops ∷ connects ∷ loops ∷ connects ∷ [])
      connecting_).connector
    ≡ left (pos connected) false
unfolding moves
moves-connected = refl

-- The same connection, told before the wait: the signal is lost.
moves-missed :
    (moves
      (λ k. true)
      (loops ∷ loops ∷ loops ∷ loops ∷ loops ∷ connects ∷ times_out ∷ connects ∷ [])
      connecting_).connector
    ≡ left (pos 0) true
unfolding moves
moves-missed = refl

moves-Excludes_example :
    let ms = connects ∷ loops ∷ loops ∷ loops ∷ [] in
    let t' = moves (λ k. true) ms connecting_ in
    (t'.held ≡ (inside t'.todo || keeps t'.connector))
    × ((inside t'.todo && keeps t'.connector) ≡ false)
    × ((value : ℤ) (kept : Bool)
        → t'.connector ≡ left value kept
        → Comes (λ k. true) (closed []) value kept)
moves-Excludes_example =
    moves-Excludes (λ k. true) (closed []) (connects ∷ loops ∷ loops ∷ loops ∷ []) connecting_ refl
      refl refl

-- Behind the `=`, and NULL where that is not before `plast`.
wifi_str_find_char-in : wifi_str_find_char (some (codes "id=7 x=1")) (some 8) b'=' ≡ some (offset 3)
unfolding wifi_str_find_char
wifi_str_find_char-in = refl

wifi_str_find_char-out : wifi_str_find_char (some (codes "id=7")) (some 3) b'=' ≡ some null
unfolding wifi_str_find_char
wifi_str_find_char-out = refl

-- The `a` is skipped with the blanks.
wifi_str_skip_space-two : wifi_str_skip_space (some (codes "  abc")) (some 5) ≡ some (offset 3)
unfolding wifi_str_skip_space
wifi_str_skip_space-two = refl

wifi_str_skip_space-none : wifi_str_skip_space (some (codes "abc")) (some 3) ≡ some minus_one
unfolding wifi_str_skip_space
wifi_str_skip_space-none = refl
