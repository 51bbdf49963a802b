-- ===== src/Wifi/Remains.antt =====
-- What the threads of a test have still to do, and what they keep (ls_wifi_test.c).
use multi_test.Prelude.{
  ◌+◌, ◌-◌, Bool, true, false, ◌||◌, Option, none, some, ◌≡◌, if◌then◌else◌, ltb, ◌==◌,
}
use multi_test.Prelude.Int.{pos_part}
use multi_test.Prelude.Fault.{◌>>=◌}
use multi_test.Wifi.{Wifi, Exec}
use multi_test.Wifi.Scan.{scan_tries, scan_finish, wifi_result_loop}
use multi_test.Wifi.TestRun.{Verdict, number, judge}
use multi_test.Wifi.Threads.{
  Scanner, tries, clears, marks, posts, over, Tester, waiting, looking, judging, flagging, finished,
  Asker, polling, answered, Threads, verdict_of,
}

-- What the scan thread has still to do.
abbrev pub scan_rest : {S : Type 0} → Exec S → Scanner → Wifi S → Option (Wifi S)
scan_rest exec (tries n) w = scan_tries exec n w >>= λ w'. some (scan_finish exec w')
scan_rest exec clears w = some (scan_finish exec w)
scan_rest exec marks w = some (record w {
  status = record (w.status) { scan_end = w.status.scan_end || ltb 0 (pos_part w.ap_num) };
  sem = w.sem + 1;
})
scan_rest exec posts w = some (record w { sem = w.sem + 1 })
scan_rest exec over w = some w

-- What the test has still to do, behind the scan thread.
abbrev pub judged_rest : {S : Type 0} → Bool → Wifi S → Wifi S × Verdict
judged_rest r w = (record w { test_result = r; test_over = true }, number (verdict_of r))

abbrev pub test_rest : {S : Type 0} → Tester → Wifi S → Option (Wifi S × Verdict)
test_rest waiting w = if w.sem == 0 then none else some (judge (record w { sem = w.sem - 1 }))
test_rest looking w = some (judge w)
test_rest (judging aps) w = some (judged_rest (wifi_result_loop aps w.test_result) w)
test_rest (flagging n) w = some (record w { test_over = true }, number n)
test_rest (finished n) w = some (w, number n)

abbrev pub rest : {S : Type 0} → Exec S → Threads S → Option (Wifi S × Verdict)
rest exec t = scan_rest exec t.scanner t.mem >>= test_rest t.tester

-- The test goes on only when the scan thread has ended.
abbrev pub IsOrdered : {S : Type 0} → Scanner → Tester → Wifi S → Type 0
IsOrdered over waiting w = w.sem ≡ 1
IsOrdered over p w = Unit
IsOrdered (tries n) waiting w = w.sem ≡ 0
IsOrdered clears waiting w = w.sem ≡ 0
IsOrdered marks waiting w = w.sem ≡ 0
IsOrdered posts waiting w = w.sem ≡ 0
IsOrdered s p w = ⊥

-- What the flag and the result tell at each point of the test.
abbrev pub IsTold : {S : Type 0} → Tester → Wifi S → Type 0
IsTold waiting w = (w.test_over ≡ false) × (w.test_result ≡ false)
IsTold looking w = (w.test_over ≡ false) × (w.test_result ≡ false)
IsTold (judging aps) w = w.test_over ≡ false
IsTold (flagging n) w = (w.test_over ≡ false) × (verdict_of w.test_result ≡ n)
IsTold (finished n) w = (w.test_over ≡ true) × (verdict_of w.test_result ≡ n)

abbrev pub IsAsked : Asker → Tester → Type 0
IsAsked polling p = Unit
IsAsked (answered n) p = p ≡ finished n

abbrev pub Invariant : {S : Type 0} → Threads S → Type 0
Invariant t = IsOrdered t.scanner t.tester t.mem × IsTold t.tester t.mem × IsAsked t.asker t.tester
