-- ===== src/Wifi/Turns.antt =====
-- What the turns of the threads of a test keep (ls_wifi_test.c).
use mathlib.Core.Path.{subst}
use mathlib.Core.Option.{some-injective}
use multi_test.Prelude.{
  zero, suc, ◌&&◌, List, [], ◌∷◌, some, ◌≡◌, refl, arith, ap, ◌∙◌, ltb, ◌==◌, Bool-cases,
  Option-cases, inl, inr,
}
use multi_test.Prelude.Int.{pos_part}
use multi_test.Prelude.Fault.{◌>>=◌}
use multi_test.Wifi.{Wifi, Exec, wifi_max_ap}
use multi_test.Wifi.Scan.{
  entries, has_ssid, wifi_sync_scan_ap, scan_tries, wifi_result_loop, wifi_result,
}
use multi_test.Wifi.TestRun.{judge}
use multi_test.Wifi.Verdict.{wifi_sync_scan_ap-Same}
use multi_test.Wifi.Threads.{
  Scanner, tries, clears, marks, posts, over, Tester, waiting, looking, judging, flagging, finished,
  Asker, polling, answered, Threads, Turn, scans, tests, asks, after_try, scan_turn, test_turn,
  ask_turn, turn, turns,
}
use multi_test.Wifi.Remains.{scan_rest, test_rest, rest, IsOrdered, IsTold, IsAsked, Invariant}

some-subst : {A : Type 0} (P : A → Type 0) {a b : A} → some a ≡ some b → P a → P b
some-subst P {a} {b} e h = subst P (some-injective a b e) h

module _ {S : Type 0} (exec : Exec S) where
  scan_turn-rest :
      (s : Scanner) (w : Wifi S)
      → (scan_turn exec s w >>= λ (w', s'). scan_rest exec s' w') ≡ scan_rest exec s w
  unfolding scan_turn scan_tries after_try
  scan_turn-rest (tries zero) w = refl
  scan_turn-rest (tries (suc n)) w = elim (Option-cases (wifi_sync_scan_ap exec wifi_max_ap w)) [
    | inl e ↦ ground arith
    | inr ((w', num), e) ↦
        let v : Wifi S = record w' { ap_num = num } in
        ground (arith, Bool-cases (pos_part num == 0), Bool-cases (has_ssid (entries v)))
  ]
  scan_turn-rest clears w = refl
  scan_turn-rest marks w = refl
  scan_turn-rest posts w = refl
  scan_turn-rest over w = refl

  pub scan_turn-IsOrdered :
      (s : Scanner) (p : Tester) (w w' : Wifi S) (s' : Scanner)
      → scan_turn exec s w ≡ some (w', s')
      → IsOrdered s p w × IsTold p w
      → IsOrdered s' p w' × IsTold p w'
  unfolding scan_turn after_try
  scan_turn-IsOrdered (tries zero) waiting w w' s' e h = ground arith
  scan_turn-IsOrdered (tries zero) p w w' s' e h = ground arith
  scan_turn-IsOrdered (tries (suc n)) waiting w w' s' e h =
      elim (Option-cases (wifi_sync_scan_ap exec wifi_max_ap w)) [
        | inl f ↦ ground arith
        | inr ((v, num), f) ↦
            let v' : Wifi S = record v { ap_num = num } in
            ground (
              arith,
              wifi_sync_scan_ap-Same exec wifi_max_ap w f,
              Bool-cases (pos_part num == 0),
              Bool-cases (has_ssid (entries v')),
            )
      ]
  scan_turn-IsOrdered (tries (suc n)) p w w' s' e h = ground arith
  scan_turn-IsOrdered clears waiting w w' s' e h = ground arith
  scan_turn-IsOrdered clears p w w' s' e h = ground arith
  scan_turn-IsOrdered marks waiting w w' s' e h = ground arith
  scan_turn-IsOrdered marks p w w' s' e h = ground arith
  scan_turn-IsOrdered posts waiting w w' s' e h = ground arith
  scan_turn-IsOrdered posts p w w' s' e h = ground arith
  scan_turn-IsOrdered over waiting w w' s' e h = ground arith
  scan_turn-IsOrdered over p w w' s' e h = ground arith

  test_turn-rest :
      (s : Scanner) (p : Tester) (w : Wifi S)
      → IsOrdered s p w
      → rest exec (record {
        mem = (test_turn p w).0;
        scanner = s;
        tester = (test_turn p w).1;
        asker = polling;
      })
        ≡ rest exec (record { mem = w; scanner = s; tester = p; asker = polling })
  unfolding test_turn judge wifi_result wifi_result_loop
  test_turn-rest over waiting w h = ground arith
  test_turn-rest over looking w h =
      ground (arith, Bool-cases (w.status.scan_end && ltb 0 (pos_part w.ap_num)))
  test_turn-rest over (judging []) w h = refl
  test_turn-rest over (judging (a ∷ aps)) w h = refl
  test_turn-rest over (flagging n) w h = refl
  test_turn-rest over (finished n) w h = refl
  test_turn-rest (tries n) waiting w h = ground arith
  test_turn-rest (tries n) p w h = ground arith
  test_turn-rest clears waiting w h = ground arith
  test_turn-rest clears p w h = ground arith
  test_turn-rest marks waiting w h = ground arith
  test_turn-rest marks p w h = ground arith
  test_turn-rest posts waiting w h = ground arith
  test_turn-rest posts p w h = ground arith

  test_turn-IsOrdered :
      (s : Scanner) (p : Tester) (w : Wifi S)
      → IsOrdered s p w × IsTold p w
      → IsOrdered s (test_turn p w).1 (test_turn p w).0 × IsTold (test_turn p w).1 (test_turn p w).0
  unfolding test_turn
  test_turn-IsOrdered over waiting w h = ground arith
  test_turn-IsOrdered over looking w h =
      ground (arith, Bool-cases (w.status.scan_end && ltb 0 (pos_part w.ap_num)))
  test_turn-IsOrdered over (judging []) w h = ground arith
  test_turn-IsOrdered over (judging (a ∷ aps)) w h = ground arith
  test_turn-IsOrdered over (flagging n) w h = ground arith
  test_turn-IsOrdered over (finished n) w h = ground arith
  test_turn-IsOrdered (tries n) waiting w h = ground arith
  test_turn-IsOrdered (tries n) p w h = ground arith
  test_turn-IsOrdered clears waiting w h = ground arith
  test_turn-IsOrdered clears p w h = ground arith
  test_turn-IsOrdered marks waiting w h = ground arith
  test_turn-IsOrdered marks p w h = ground arith
  test_turn-IsOrdered posts waiting w h = ground arith
  test_turn-IsOrdered posts p w h = ground arith

  turn-rest : (u : Turn) (t : Threads S) → Invariant t → (turn exec u t >>= rest exec) ≡ rest exec t
  unfolding turn ask_turn
  turn-rest scans t h = elim (Option-cases (scan_turn exec t.scanner t.mem)) [
    | inl e ↦ rw e (ap (λ r. r >>= test_rest t.tester) (rw e at (scan_turn-rest t.scanner t.mem)))
    | inr ((w, s), e) ↦
        rw e (ap (λ r. r >>= test_rest t.tester) (rw e at (scan_turn-rest t.scanner t.mem)))
  ]
  turn-rest tests t h = test_turn-rest t.scanner t.tester t.mem h.0
  turn-rest asks t h = refl

  ask_turn-IsAsked :
      (a : Asker) (p : Tester) (w : Wifi S) → IsTold p w → IsAsked a p → IsAsked (ask_turn a w) p
  unfolding ask_turn
  ask_turn-IsAsked polling (finished n) w h k = ground arith
  ask_turn-IsAsked polling p w h k = ground arith
  ask_turn-IsAsked (answered n) p w h k = k

  test_turn-IsAsked :
      (a : Asker) (p : Tester) (w : Wifi S) → IsAsked a p → IsAsked a (test_turn p w).1
  unfolding test_turn
  test_turn-IsAsked polling p w h = tt
  test_turn-IsAsked (answered n) p w h = rw h refl

  pub turn-Invariant :
      (u : Turn) (t t' : Threads S) → turn exec u t ≡ some t' → Invariant t → Invariant t'
  unfolding turn
  turn-Invariant scans t t' e h = elim (Option-cases (scan_turn exec t.scanner t.mem)) [
    | inl f ↦ ground arith
    | inr ((w, s), f) ↦
        let (ordered, told) = scan_turn-IsOrdered t.scanner t.tester t.mem w s f (h.0, h.1) in
        some-subst Invariant (rw f at e) (ordered, told, h.2)
  ]
  turn-Invariant tests t t' e h =
      let (ordered, told) = test_turn-IsOrdered t.scanner t.tester t.mem (h.0, h.1) in
      some-subst Invariant e (ordered, told, test_turn-IsAsked t.asker t.tester t.mem h.2)
  turn-Invariant asks t t' e h =
      some-subst Invariant e (h.0, h.1, ask_turn-IsAsked t.asker t.tester t.mem h.1 h.2)

  pub turns-rest :
      (us : List Turn) (t : Threads S) → Invariant t → (turns exec us t >>= rest exec) ≡ rest exec t
  unfolding turns
  turns-rest [] t h = refl
  turns-rest (u ∷ us) t h = elim (Option-cases (turn exec u t)) [
    | inl e ↦ rw e (rw e at (turn-rest u t h))
    | inr (t', e) ↦
        rw e (turns-rest us t' (turn-Invariant u t t' e h) ∙ (rw e at (turn-rest u t h)))
  ]

  pub turns-Invariant :
      (us : List Turn) (t t' : Threads S) → turns exec us t ≡ some t' → Invariant t → Invariant t'
  unfolding turns
  turns-Invariant [] t t' e h = some-subst Invariant e h
  turns-Invariant (u ∷ us) t t' e h = elim (Option-cases (turn exec u t)) [
    | inl f ↦ ground arith
    | inr (v, f) ↦ turns-Invariant us v t' (rw f at e) (turn-Invariant u t v f h)
  ]
