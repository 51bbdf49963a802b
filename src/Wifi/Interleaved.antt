-- ===== src/Wifi/Interleaved.antt =====
-- Every order in which the threads of a test take their turns (ls_wifi_test.c).
use multi_test.Prelude.{
  ℕ, true, false, ◌&&◌, List, Option, none, some, ◌≡◌, refl, arith, sym, ◌∙◌, ◌≢◌, ◌==◌, Bool-cases,
  Option-cases, inl, inr, ◌⊎◌,
}
use multi_test.Prelude.Int.{pos}
use multi_test.Prelude.Fault.{◌>>=◌}
use multi_test.Wifi.{Wifi, Exec}
use multi_test.Wifi.Scan.{scan_tries, scan_finish, wifi_scan_thread}
use multi_test.Wifi.TestRun.{Run, fault, done, Verdict, number, start_thread, finish}
use multi_test.Wifi.Threads.{
  Scanner, tries, clears, marks, posts, over, Tester, waiting, finished, Asker, polling, answered,
  Threads, Turn, turns, created,
}
use multi_test.Wifi.Power.{Driver, connects_below, eng_wifi_open-cases}
use multi_test.Wifi.TestRun.{test_wifi_start}
use multi_test.Wifi.Remains.{scan_rest, test_rest, rest, IsOrdered, IsAsked, Invariant}
use multi_test.Wifi.Turns.{turns-rest, turns-Invariant}
use multi_test.Wifi.Created.{at_creation, eng_wifi_open-test_over, eng_wifi_scan_start-created}

-- A run in one piece and the threads behind some turns.
abbrev pub Follows : {S : Type 0} → Run S Verdict → Option (Threads S) → Type 0
Follows r none = r ≡ fault
Follows r (some t) =
    ((n : ℕ) → (t.tester ≡ finished n) ⊎ (t.asker ≡ answered n) → r ≡ done t.mem (number n))
    × (t.scanner ≡ over → t.tester ≡ waiting → t.mem.sem ≡ 1)

module _ {S : Type 0} (exec : Exec S) where
  created-Invariant :
      (w : Wifi S) → w.sem ≡ 0 → w.test_over ≡ false → w.test_result ≡ false → Invariant (created w)
  created-Invariant w s o r = (s, (o, r), tt)

  finish-rest :
      (w v : Wifi S) (r : Verdict) → test_rest waiting w ≡ some (v, r) → finish exec w ≡ done v r
  finish-rest w v r h = ground (arith, Bool-cases (w.sem == 0))

  -- What the threads have to do from the creation on.
  created-rest :
      (w v : Wifi S) (r : Verdict)
      → rest exec (created w) ≡ some (v, r)
      → (u : Wifi S) × (start_thread exec w ≡ done u (pos 0)) × (finish exec u ≡ done v r)
  unfolding wifi_scan_thread
  created-rest w v r h = elim (Option-cases (scan_tries exec 3 w)) [
    | inl e ↦ absurd (ground arith)
    | inr (u, e) ↦
        let u' = scan_finish exec u in
        let go : test_rest waiting u' ≡ some (v, r) = rw e at h in
        (u', ground (arith, e), finish-rest u' v r go)
  ]

  posted-rest : (w : Wifi S) → test_rest waiting w ≡ none → w.sem ≢ 0 → ⊥
  posted-rest w h k = ground arith

  created-fault : (w : Wifi S) → rest exec (created w) ≡ none → start_thread exec w ≡ fault
  unfolding wifi_scan_thread
  created-fault w h = elim (Option-cases (scan_tries exec 3 w)) [
    | inl e ↦ ground arith
    | inr (u, e) ↦
        let u' = scan_finish exec u in
        let go : test_rest waiting u' ≡ none = rw e at h in absurd (posted-rest u' go (omega arith))
  ]

  created-turns :
      (us : List Turn) (w : Wifi S) (t : Threads S)
      → w.sem ≡ 0
      → w.test_over ≡ false
      → w.test_result ≡ false
      → turns exec us (created w) ≡ some t
      → Invariant t × (rest exec t ≡ rest exec (created w))
  created-turns us w t s o r e =
      let i = created-Invariant w s o r in
      (turns-Invariant exec us (created w) t e i, rw e at (turns-rest exec us (created w) i))

  finished-rest :
      (s : Scanner) (p : Tester) (w : Wifi S) (n : ℕ)
      → IsOrdered s p w
      → p ≡ finished n
      → (scan_rest exec s w >>= test_rest p) ≡ some (w, number n)
  finished-rest over (finished m) w n h e = ground arith
  finished-rest over p w n h e = ground arith
  finished-rest (tries k) waiting w n h e = ground arith
  finished-rest (tries k) p w n h e = ground arith
  finished-rest clears waiting w n h e = ground arith
  finished-rest clears p w n h e = ground arith
  finished-rest marks waiting w n h e = ground arith
  finished-rest marks p w n h e = ground arith
  finished-rest posts waiting w n h e = ground arith
  finished-rest posts p w n h e = ground arith

  asked-finished :
      (a : Asker) (p : Tester) (n : ℕ)
      → IsAsked a p
      → (p ≡ finished n) ⊎ (a ≡ answered n)
      → p ≡ finished n
  asked-finished a p n h (inl e) = e
  asked-finished polling p n h (inr e) = ground arith
  asked-finished (answered m) p n h (inr e) = ground arith

  over-waiting :
      (s : Scanner) (p : Tester) (w : Wifi S) → IsOrdered s p w → s ≡ over → p ≡ waiting → w.sem ≡ 1
  over-waiting over waiting w h e f = h
  over-waiting over p w h e f = ground arith
  over-waiting s p w h e f = ground arith

  Follows-turns :
      (us : List Turn) (w : Wifi S) (r : Run S Verdict)
      → w.sem ≡ 0
      → w.test_over ≡ false
      → w.test_result ≡ false
      → (start_thread exec w ≡ fault → r ≡ fault)
      → ((u v : Wifi S) (n : ℕ)
          → start_thread exec w ≡ done u (pos 0)
          → finish exec u ≡ done v (number n)
          → r ≡ done v (number n))
      → Follows r (turns exec us (created w))
  Follows-turns us w r s o q f g = from_run (turns exec us (created w)) refl
    where
      from_run : (m : Option (Threads S)) → turns exec us (created w) ≡ m → Follows r m
      from_run none e =
          f (created-fault w (sym (rw e at (turns-rest exec us (created w) (s, (o, q), tt)))))
      from_run (some t) e =
          let (i, same) = created-turns us w t s o q e in
          (
            (λ n k.
                let p = asked-finished t.asker t.tester n i.2 k in
                let (u, a, b) =
                  created-rest w t.mem (number n)
                    (sym same ∙ finished-rest t.scanner t.tester t.mem n i.0 p) in
                g u t.mem n a b),
            over-waiting t.scanner t.tester t.mem i.0,
          )

  -- However the threads of a test take their turns, if it opens wifi and wifi_test_over_flag has not been
  -- set (it never is cleared, so no test has ended before), what they come to is what the test
  -- comes to in one piece: the fault, or, once the test has its value or the question for the result its
  -- answer, the same state and the same number; and the test never waits for a scan thread that is
  -- over without its post.
  pub turns-Follows :
      (us : List Turn) (d : Driver) (w : Wifi S)
      → w.status.opened ≡ false
      → w.test_over ≡ false
      → (d.load_ok && connects_below d.connects 5) ≡ true
      → Follows (test_wifi_start exec d w) (turns exec us (created (at_creation d w)))
  unfolding test_wifi_start
  turns-Follows us d w h o e =
      let w0 : Wifi S = record w { sem = 0 } in
      let c = at_creation d w in
      let opens = (eng_wifi_open-cases d w0).0 e in
      let over_ : c.test_over ≡ false = eng_wifi_open-test_over d w0 ∙ o in
      let result : c.test_result ≡ false = opens.4 in
      let start = eng_wifi_scan_start-created exec d w h e in
      Follows-turns us c (test_wifi_start exec d w) refl over_ result (λ f. rw (start, f) refl)
        (λ u v n f k. rw (start, f) k)
