-- ===== src/Tests/Key.antt =====
-- The key listener at concrete inputs (key_app.cpp).
use multi_test.Prelude.{◌≡◌, refl, List, [], ◌∷◌, true, false, none, some, arith}
use multi_test.Prelude.Text.{codes}
use multi_test.Prelude.{ℕ, ◌/◌, ◌%◌, ◌*◌}
use multi_test.Key.{
  all_release, TimeVal, KeyPressInfo, InputEvent, double, long, key_press, key_release,
}
use multi_test.Key.Protocol.{analyse_all, analyse_all-pending, pending, follow_all}
use multi_test.Key.Gestures.{
  key_event, timeout, timeouts, report, analyse_all-double_click, analyse_all-long_press,
}
use multi_test.Key.Devices.{ev_init, Dirent}
use multi_test.Key.Thread.{Poll, input_thread, input_thread-silent}
use multi_test.Key.Start.{
  key_test, tel_test, Started, IsStart, call_threads, polled, key_test-clean,
}

abbrev at_ms : ℕ → TimeVal
at_ms n = record { tv_sec = n / 1000; tv_usec = n % 1000 * 1000 }

abbrev idle : KeyPressInfo
idle = record {
  code = 0x74;
  is_press = 0;
  state = all_release;
  start_time = at_ms 0;
  end_time = at_ms 0;
}

abbrev fresh : KeyPressInfo
fresh = record idle { code = 0 }

abbrev noise : InputEvent
noise = record { type = 7; code = 7; value = 7 }

analyse_all-double_click_example :
    let r =
      analyse_all
        (key_event 0x74 key_press (at_ms 100)
          ∷ timeouts noise (at_ms 105 ∷ at_ms 110 ∷ []) (
              key_event 0x74 key_release (at_ms 150)
              ∷ timeouts noise (at_ms 155 ∷ []) (
                  key_event 0x74 key_press (at_ms 200)
                  ∷ timeouts noise (at_ms 205 ∷ []) (
                      key_event 0x74 key_release (at_ms 250)
                      ∷ timeouts noise (at_ms 255 ∷ []) (timeout noise (at_ms 500) ∷ [])))))
        idle in
    (r.1 ≡ report double 0x74 false ∷ []) × (r.0.state ≡ all_release)
analyse_all-double_click_example =
    analyse_all-double_click idle 0x74 (at_ms 100) (at_ms 150) (at_ms 200) (at_ms 250) (at_ms 500)
      (at_ms 105 ∷ at_ms 110 ∷ []) (at_ms 155 ∷ []) (at_ms 205 ∷ []) (at_ms 255 ∷ []) noise refl
      (omega arith) (omega arith) (omega arith) (omega arith) (omega arith) (omega arith)
      (omega arith) (omega arith)

analyse_all-long_press_example :
    let r =
      analyse_all
        (key_event 0x74 key_press (at_ms 100)
          ∷ timeouts noise (at_ms 105 ∷ at_ms 110 ∷ []) (
              timeout noise (at_ms 1100)
              ∷ timeouts noise (at_ms 1105 ∷ []) (key_event 0x74 key_release (at_ms 1500) ∷ [])))
        idle in
    (r.1 ≡ report long 0x74 true ∷ report long 0x74 false ∷ []) × (r.0.state ≡ all_release)
analyse_all-long_press_example =
    analyse_all-long_press idle 0x74 (at_ms 100) (at_ms 1100) (at_ms 1500)
      (at_ms 105 ∷ at_ms 110 ∷ []) (at_ms 1105 ∷ []) noise refl (omega arith) (omega arith)
      (omega arith) (omega arith)

analyse_all-pending_example :
    let cs = key_event 0x74 key_press (at_ms 100) ∷ timeout noise (at_ms 1200) ∷ [] in
    follow_all none (analyse_all cs idle).1 ≡ some (pending (analyse_all cs idle).0)
analyse_all-pending_example =
    analyse_all-pending (key_event 0x74 key_press (at_ms 100) ∷ timeout noise (at_ms 1200) ∷ [])
      idle (omega arith) (λ e. refl)

abbrev dir : List Dirent
dir =
    record { d_name = codes "event0"; fd = some 3 }
    ∷ record { d_name = codes "mice"; fd = some 4 }
    ∷ record { d_name = codes "event1"; fd = none }
    ∷ record { d_name = codes "event2"; fd = some 5 }
    ∷ []

ev_init-dir : ev_init (some dir) [] ≡ some (3 ∷ 5 ∷ [])
unfolding ev_init
ev_init-dir = refl

abbrev full : List ℕ
full = 3 ∷ 4 ∷ 5 ∷ 6 ∷ 7 ∷ 8 ∷ 9 ∷ 10 ∷ 11 ∷ 12 ∷ 13 ∷ 14 ∷ 15 ∷ 16 ∷ 17 ∷ 18 ∷ []

abbrev presses : List Poll
presses =
    record {
      got = some (record { type = 1; code = 0x74; value = 1 });
      stale = noise;
      now = at_ms 10;
      later = at_ms 10;
    }
    ∷ record { got = none; stale = noise; now = at_ms 15; later = at_ms 15 }
    ∷ []

input_thread-silent_example :
    ((input_thread presses fresh).1 ≡ []) × ((input_thread presses fresh).0.state ≡ all_release)
input_thread-silent_example = input_thread-silent presses fresh refl

key_test-clean_example :
    ((s : Started) × (key_test (some dir) true fresh [] ≡ some s)
      × IsStart true [] (polled (some dir)) s)
    × ((s : Started) × (tel_test (some dir) true true fresh [] ≡ some s)
        × IsStart true (call_threads true) (polled (some dir)) s)
key_test-clean_example = key_test-clean (some dir) true true fresh
