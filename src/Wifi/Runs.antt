-- ===== src/Wifi/Runs.antt =====
-- Sequences of runs of the wifi test (ls_wifi_test.c): tests, opens, closes and connections, in any
-- order.
use multi_test.Prelude.{
  ℕ, zero, suc, ◌≡◌, refl, Bool, true, false, not, ◌&&◌, Option, none, some, arith, if◌then◌else◌,
  ◌==◌, Bool-cases, inl, inr,
}
use multi_test.Prelude.Int.{ℤ, pos, negsuc}
use multi_test.Wifi.{
  Wifi, Exec, call, connect_to_supplicant, DriverCall, load_driver, unload_driver, start_supplicant,
}
use multi_test.Wifi.Scan.{wifi_result, wifi_scan_thread}
use multi_test.Wifi.Power.{Driver, wifi_close, connect_tries, finish_open, eng_wifi_open}
use multi_test.Wifi.TestRun.{
  Run, fault, blocked, done, ◌>>=◌, sem_wait, judge, eng_wifi_get_scan_result, scan_when_open,
  eng_wifi_scan_start, test_wifi_start, start_thread, after_open, finish, from_thread, tested,
}
use multi_test.Wifi.Bounds.{InBounds, wifi_scan_thread-InBounds}

-- The states in which a run ends or waits.
abbrev pub Ensures : {S A : Type 0} → (Wifi S → Type 0) → Run S A → Type 0
Ensures P fault = Unit
Ensures P (blocked w) = P w
Ensures P (done w a) = P w

pub Ensures->>= :
    {S A B : Type 0} (P : Wifi S → Type 0) (m : Run S A) (f : Wifi S → A → Run S B)
    → Ensures P m
    → ((w : Wifi S) (a : A) → P w → Ensures P (f w a))
    → Ensures P (m >>= f)
Ensures->>= P fault f h k = tt
Ensures->>= P (blocked w) f h k = h
Ensures->>= P (done w a) f h k = k w a h

pub Ensures-if :
    {S A : Type 0} (P : Wifi S → Type 0) (c : Bool) (m n : Run S A)
    → Ensures P m
    → Ensures P n
    → Ensures P (if c then m else n)
Ensures-if P true m n h k = h
Ensures-if P false m n h k = k

from_thread-Ensures :
    {S : Type 0} (P : Wifi S → Type 0) (o : Option (Wifi S))
    → ((v : Wifi S) → o ≡ some v → P v)
    → Ensures P (from_thread o)
from_thread-Ensures P none h = tt
from_thread-Ensures P (some v) h = h v refl

module _ {S : Type 0} where
  abbrev pub Bounded : {A : Type 0} → Run S A → Type 0
  Bounded r = Ensures InBounds r

  pub wifi_close-InBounds : (w : Wifi S) → InBounds w → InBounds (wifi_close w)
  unfolding wifi_close
  wifi_close-InBounds w b = ground arith

  connect_tries-InBounds :
      (ok : ℕ → Bool) (n : ℕ) (w : Wifi S) → InBounds w → InBounds (connect_tries ok n w).0
  unfolding connect_tries
  connect_tries-InBounds ok zero w b = b
  connect_tries-InBounds ok (suc n) w b =
      let b' : InBounds (call w connect_to_supplicant) = record {
        written = b.written;
        fits = b.fits;
      } in
      ground (arith, connect_tries-InBounds ok n (call w connect_to_supplicant) b')

  finish_open-InBounds :
      (w : Wifi S) (connected : Bool) → InBounds w → InBounds (finish_open w connected).0
  unfolding finish_open
  finish_open-InBounds w true b = record { written = omega arith; fits = b.fits }
  finish_open-InBounds w false b = record { written = b.written; fits = b.fits }

  call-InBounds : (w : Wifi S) (c : DriverCall) → InBounds w → InBounds (call w c)
  call-InBounds w c b = record { written = b.written; fits = b.fits }

  pub eng_wifi_open-InBounds :
      (d : Driver) (w : Wifi S) → InBounds w → InBounds (eng_wifi_open d w).0
  unfolding eng_wifi_open
  eng_wifi_open-InBounds d w b =
      let w0 = if d.loaded then wifi_close w else w in
      let b0 : InBounds w0 = ground (arith, wifi_close-InBounds w b) in
      let w1 = call w0 load_driver in
      let w2 = call w1 start_supplicant in
      let w3 = if d.start_ok then w2 else call w2 unload_driver in
      let b1 = call-InBounds w0 load_driver b0 in
      let b2 = call-InBounds w1 start_supplicant b1 in
      let b3 : InBounds w3 = ground (arith, b2, call-InBounds w2 unload_driver b2) in
      let b4 = connect_tries-InBounds d.connects 5 w3 b3 in
      let (w4, connected) = connect_tries d.connects 5 w3 in
      ground (arith, b1, finish_open-InBounds w4 connected b4)

module _ {S : Type 0} (exec : Exec S) where
  sem_wait-Bounded : (w : Wifi S) → InBounds w → Bounded (sem_wait w)
  sem_wait-Bounded w b = elim (Bool-cases (w.sem == 0)) [
    | inl e ↦ rw e b
    | inr e ↦ rw e (record { written = b.written; fits = b.fits })
  ]

  start_thread-Bounded : (w : Wifi S) → InBounds w → Bounded (start_thread exec w)
  start_thread-Bounded w b =
      from_thread-Ensures InBounds (wifi_scan_thread exec w)
        (λ v e. wifi_scan_thread-InBounds exec w v b e)

  eng_wifi_get_scan_result-Bounded :
      (w : Wifi S) → InBounds w → Bounded (eng_wifi_get_scan_result exec w)
  unfolding eng_wifi_get_scan_result
  eng_wifi_get_scan_result-Bounded w b = Ensures-if InBounds (not w.status.opened) _ _ b (
      Ensures-if InBounds w.status.scanning _ _ (record { written = b.written; fits = b.fits })
        (start_thread-Bounded _ (record { written = b.written; fits = b.fits })))

  scan_when_open-Bounded : (w : Wifi S) → InBounds w → Bounded (scan_when_open exec w)
  unfolding scan_when_open
  scan_when_open-Bounded w b =
      Ensures->>= InBounds (sem_wait w) _ (sem_wait-Bounded w b) (λ w' a b'.
        Ensures-if InBounds (not w'.status.scan_end && not w'.status.scanning) _ _
          (eng_wifi_get_scan_result-Bounded w' b') b')

  after_open-Bounded : (r : Wifi S × ℤ) → InBounds r.0 → Bounded (after_open exec r)
  after_open-Bounded (w, pos n) b = scan_when_open-Bounded w b
  after_open-Bounded (w, negsuc n) b = b

  eng_wifi_scan_start-Bounded :
      (d : Driver) (w : Wifi S) → InBounds w → Bounded (eng_wifi_scan_start exec d w)
  unfolding eng_wifi_scan_start
  eng_wifi_scan_start-Bounded d w b =
      let w' : Wifi S = record w { sem = 0 } in
      let b' : InBounds w' = record { written = b.written; fits = b.fits } in
      Ensures-if InBounds (not w.status.opened) _ _
        (after_open-Bounded (eng_wifi_open d w') (eng_wifi_open-InBounds d w' b'))
        (scan_when_open-Bounded w' b')

  judge-InBounds : (w : Wifi S) → InBounds w → InBounds (judge w).0
  unfolding judge wifi_result
  judge-InBounds w b = ground arith

  finish-Bounded : (w : Wifi S) → InBounds w → Bounded (finish exec w)
  finish-Bounded w b =
      Ensures->>= InBounds (sem_wait w) _ (sem_wait-Bounded w b) (λ w' a b'. judge-InBounds w' b')

  tested-Bounded : (w : Wifi S) (ret : ℤ) → InBounds w → Bounded (tested exec w ret)
  tested-Bounded w (pos n) b = finish-Bounded w b
  tested-Bounded w (negsuc n) b = b

  pub test_wifi_start-Bounded :
      (d : Driver) (w : Wifi S) → InBounds w → Bounded (test_wifi_start exec d w)
  unfolding test_wifi_start
  test_wifi_start-Bounded d w b =
      Ensures->>= InBounds (eng_wifi_scan_start exec d w) _ (eng_wifi_scan_start-Bounded d w b)
        (λ w' ret b'. tested-Bounded w' ret b')
