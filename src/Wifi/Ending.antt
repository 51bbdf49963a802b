-- ===== src/Wifi/Ending.antt =====
-- That the threads of a test can always come to its end (ls_wifi_test.c).
use mathlib.Core.Path.{subst}
use multi_test.Prelude.{
  sym, ℕ, zero, suc, ◌+◌, ◌≤◌, false, ◌&&◌, List, [], ◌∷◌, Option, none, some, ◌≡◌, refl, arith,
  ltb, Bool-cases, Option-cases, inl, inr, ◌==◌,
}
use multi_test.Prelude.Int.{pos_part}
use multi_test.Prelude.Fault.{◌>>=◌}
use multi_test.Wifi.{Wifi, Exec, WifiAp, wifi_max_ap}
use multi_test.Wifi.Scan.{entries, has_ssid, wifi_sync_scan_ap}
use multi_test.Wifi.Threads.{
  Scanner, tries, clears, marks, posts, over, Tester, waiting, looking, judging, flagging, finished,
  Asker, Threads, Turn, scans, tests, verdict_of, judge_entry, after_try, scan_turn, test_turn,
  turn, turns, created,
}
use multi_test.Wifi.Remains.{IsOrdered, Invariant}
use multi_test.Wifi.Turns.{turns-Invariant, turn-Invariant}

-- The fault, or the end of the test.
abbrev pub Ended : {S : Type 0} → Option (Threads S) → Type 0
Ended none = Unit
Ended (some t) = (n : ℕ) × (t.tester ≡ finished n)

module _ {S : Type 0} (exec : Exec S) where
  -- Some turns end the test.
  abbrev CanEnd : Threads S → Type 0
  CanEnd t = (us : List Turn) × Ended (turns exec us t)

  -- A turn before them.
  CanEnd-turn : (u : Turn) (t t' : Threads S) → turn exec u t ≡ some t' → CanEnd t' → CanEnd t
  unfolding turns
  CanEnd-turn u t t' e (us, h) = (u ∷ us, rw e h)

  abbrev at : Wifi S → Scanner → Tester → Asker → Threads S
  at w s p a = record { mem = w; scanner = s; tester = p; asker = a }

  flagging-CanEnd : (n : ℕ) (w : Wifi S) (a : Asker) → CanEnd (at w over (flagging n) a)
  unfolding turns turn test_turn
  flagging-CanEnd n w a = (tests ∷ [], (n, refl))

  judging-CanEnd : (aps : List WifiAp) (w : Wifi S) (a : Asker) → CanEnd (at w over (judging aps) a)
  unfolding turn test_turn
  judging-CanEnd [] w a =
      CanEnd-turn tests _ (at w over (flagging (verdict_of w.test_result)) a) refl
        (flagging-CanEnd (verdict_of w.test_result) w a)
  judging-CanEnd (e ∷ aps) w a =
      let w' : Wifi S = record w { test_result = judge_entry e w.test_result } in
      CanEnd-turn tests _ (at w' over (judging aps) a) refl (judging-CanEnd aps w' a)

  looking-CanEnd : (w : Wifi S) (a : Asker) → CanEnd (at w over looking a)
  unfolding turn test_turn
  looking-CanEnd w a = elim (Bool-cases (w.status.scan_end && ltb 0 (pos_part w.ap_num))) [
    | inl e ↦
        CanEnd-turn tests _ (at w over (judging (entries w)) a) (ground arith)
          (judging-CanEnd (entries w) w a)
    | inr e ↦ CanEnd-turn tests _ (at w over (flagging 0) a) (ground arith) (flagging-CanEnd 0 w a)
  ]

  over-CanEnd : (p : Tester) (w : Wifi S) (a : Asker) → IsOrdered over p w → CanEnd (at w over p a)
  unfolding turns turn test_turn
  over-CanEnd waiting w a h =
      let w' : Wifi S = record w { sem = 0 } in
      CanEnd-turn tests _ (at w' over looking a) (ground arith) (looking-CanEnd w' a)
  over-CanEnd looking w a h = looking-CanEnd w a
  over-CanEnd (judging aps) w a h = judging-CanEnd aps w a
  over-CanEnd (flagging n) w a h = flagging-CanEnd n w a
  over-CanEnd (finished n) w a h = ([], (n, refl))

  -- The turns that the scan thread has left.
  abbrev work : Scanner → ℕ
  work (tries n) = n + 4
  work clears = 3
  work marks = 2
  work posts = 1
  work over = 0

  scan_turn-work :
      (s s' : Scanner) (w w' : Wifi S) (k : ℕ)
      → work s ≤ suc k
      → scan_turn exec s w ≡ some (w', s')
      → work s' ≤ k
  unfolding scan_turn after_try
  scan_turn-work (tries zero) s' w w' k h e = ground arith
  scan_turn-work (tries (suc n)) s' w w' k h e =
      elim (Option-cases (wifi_sync_scan_ap exec wifi_max_ap w)) [
        | inl f ↦ ground arith
        | inr ((v, num), f) ↦
            let v' : Wifi S = record v { ap_num = num } in
            ground (arith, Bool-cases (pos_part num == 0), Bool-cases (has_ssid (entries v')))
      ]
  scan_turn-work clears s' w w' k h e = ground arith
  scan_turn-work marks s' w w' k h e = ground arith
  scan_turn-work posts s' w w' k h e = ground arith
  scan_turn-work over s' w w' k h e = ground arith

  work-zero : (s : Scanner) → work s ≤ 0 → s ≡ over
  work-zero (tries n) h = absurd (omega arith)
  work-zero over h = refl
  work-zero s h = absurd (omega arith)

  scans-CanEnd :
      (k : ℕ) (s : Scanner) (p : Tester) (w : Wifi S) (a : Asker)
      → work s ≤ k
      → Invariant (at w s p a)
      → CanEnd (at w s p a)
  unfolding turns turn
  scans-CanEnd zero s p w a h i =
      let e = work-zero s h in
      subst (λ s. CanEnd (at w s p a)) (sym e)
        (over-CanEnd p w a (subst (λ s. IsOrdered s p w) e i.0))
  scans-CanEnd (suc k) s p w a h i = elim (Option-cases (scan_turn exec s w)) [
    | inl e ↦ (scans ∷ [], rw e tt)
    | inr ((w', s'), e) ↦
        let t' = at w' s' p a in
        let go : turn exec scans (at w s p a) ≡ some t' = rw e refl in
        CanEnd-turn scans (at w s p a) t' go (
          scans-CanEnd k s' p w' a (scan_turn-work s s' w w' k h e)
            (turn-Invariant exec scans (at w s p a) t' go i))
  ]

  -- However the threads of a test have taken their turns since the scan thread was created, some more
  -- turns bring the test to its end or to the fault of a line.
  pub turns-Ended :
      (us : List Turn) (w : Wifi S)
      → w.sem ≡ 0
      → w.test_over ≡ false
      → w.test_result ≡ false
      → (more : List Turn) × Ended (turns exec us (created w) >>= turns exec more)
  turns-Ended us w s o r = elim (Option-cases (turns exec us (created w))) [
    | inl e ↦ ([], rw e tt)
    | inr (t, e) ↦
        let i = turns-Invariant exec us (created w) t e (s, (o, r), tt) in
        let (more, h) =
          scans-CanEnd (work t.scanner) t.scanner t.tester t.mem t.asker (omega arith) i in
        (more, rw e h)
  ]
