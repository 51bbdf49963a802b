-- ===== src/Wifi/TestRun.antt =====
-- The whole test (ls_wifi_test.c): `eng_wifi_get_scan_result`, `eng_wifi_scan_start`,
-- `test_wifi_start`. The scan thread only meets the caller at the
-- semaphore, so it is run where it is created. Creating a thread succeeds.
use multi_test.Prelude.{
  ℕ, ◌+◌, ◌-◌, true, false, not, ◌&&◌, Option, none, some, if◌then◌else◌, ltb, ◌==◌,
}
use multi_test.Prelude.Int.{ℤ, pos, negsuc, pos_part}
use multi_test.Wifi.{Wifi, Exec}
use multi_test.Wifi.Scan.{wifi_scan_thread, wifi_result}
use multi_test.Wifi.Power.{Driver, eng_wifi_open}

-- How a run ends: at the fault of a line, in a wait for a semaphore that nothing posts, or with a
-- value.
pub data Run (S A : Type 0) : Type 0 where
  fault : Run S A
  blocked : Wifi S → Run S A
  done : Wifi S → A → Run S A

infixl 5 ◌>>=◌
abbrev pub ◌>>=◌ : {S A B : Type 0} → Run S A → (Wifi S → A → Run S B) → Run S B
fault >>= f = fault
blocked w >>= f = blocked w
done w a >>= f = f w a

-- `sem_wait`
abbrev pub sem_wait : {S : Type 0} → Wifi S → Run S (Unit {0})
sem_wait w = if w.sem == 0 then blocked w else done (record w { sem = w.sem - 1 }) tt

-- The value of `test_wifi_start`: the constant ZIB_FAIL, or a number.
pub data Verdict : Type 0 where
  zib_fail : Verdict
  number : ℕ → Verdict

-- The steps behind the second wait.
unfoldable pub judge : {S : Type 0} → Wifi S → Wifi S × Verdict
unfolding wifi_result
judge w =
    if w.status.scan_end && ltb 0 (pos_part w.ap_num)
    then (
      record (wifi_result w) { test_over = true },
      number (if (wifi_result w).test_result then 1 else 0),
    )
    else (record w { test_over = true }, number 0)

abbrev pub from_thread : {S : Type 0} → Option (Wifi S) → Run S ℤ
from_thread none = fault
from_thread (some w) = done w (pos 0)

module _ {S : Type 0} (exec : Exec S) where
  abbrev pub start_thread : Wifi S → Run S ℤ
  start_thread w = from_thread (wifi_scan_thread exec w)

  unfoldable pub eng_wifi_get_scan_result : Wifi S → Run S ℤ
  eng_wifi_get_scan_result w =
      if not w.status.opened
      then done w (negsuc 0)
      else if w.status.scanning
      then done (record w { sem = w.sem + 1 }) (pos 0)
      else start_thread (record w {
        status = record { opened = w.status.opened; scanning = true; scan_end = false };
      })

  -- Behind the open.
  unfoldable pub scan_when_open : Wifi S → Run S ℤ
  unfolding eng_wifi_get_scan_result
  scan_when_open w = sem_wait w >>= λ w' _.
      if not w'.status.scan_end && not w'.status.scanning
      then eng_wifi_get_scan_result w'
      else done w' (pos 0)

  abbrev pub after_open : Wifi S × ℤ → Run S ℤ
  after_open (w, pos n) = scan_when_open w
  after_open (w, negsuc n) = done w (negsuc 0)

  -- 0, or -1 when the open or the start of a scan fails.
  unfoldable pub eng_wifi_scan_start : Driver → Wifi S → Run S ℤ
  unfolding scan_when_open eng_wifi_open
  eng_wifi_scan_start d w =
      let w' = record w { sem = 0 } in
      if not w'.status.opened then after_open (eng_wifi_open d w') else scan_when_open w'

  abbrev pub finish : Wifi S → Run S Verdict
  finish w = sem_wait w >>= λ w' _. let (w'', v) = judge w' in done w'' v

  abbrev pub tested : Wifi S → ℤ → Run S Verdict
  tested w (pos n) = finish w
  tested w (negsuc n) = done w zib_fail

  unfoldable pub test_wifi_start : Driver → Wifi S → Run S Verdict
  unfolding eng_wifi_scan_start judge
  test_wifi_start d w = eng_wifi_scan_start d w >>= λ w' ret. tested w' ret
