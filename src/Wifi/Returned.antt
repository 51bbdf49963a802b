-- ===== src/Wifi/Returned.antt =====
-- With what `wifi_Connect_Network` returns, and who then has the mutex (ls_wifi_test.c).
use mathlib.Core.Path.{subst}
use multi_test.Prelude.{
  ℕ, Bool, true, false, ◌&&◌, ◌||◌, List, [], ◌∷◌, Option, if◌then◌else◌, ◌≡◌, refl, ◌==◌,
  Bool-cases, inl, inr, sym,
}
use multi_test.Prelude.Int.{ℤ}
use multi_test.Prelude.Text.{Bytes}
use multi_test.Wifi.{Wifi}
use multi_test.Wifi.TestRun.{done}
use multi_test.Wifi.Connect.{connected, Wait, signalled, timed_out, after_wait}
use multi_test.Wifi.Handshake.{
  Action, signals_scan, runs_dhcp, sets, locks, signals, unlocks, ends, Connector, wants, waiting,
  woken, late, left, Handshake, connect_turn, act, loop_turn, timed_out_of, signalled_from, Move,
  connects, times_out, loops, move, moves,
}
use multi_test.Wifi.Mutex.{inside, keeps, Excludes, move-Excludes}

module _ {S : Type 0} (dhcp : ℕ → Bool) (w : Wifi S) where
  -- A value that the wait of the model in one piece can come to.
  abbrev pub Comes : ℤ → Bool → Type 0
  Comes value kept =
      (wait : Wait) × (w' : Wifi S) × (after_wait dhcp wait w
        ≡ done w' (record { value = value; mutex_held = kept }))

  abbrev Returns : Connector → Type 0
  Returns wants = Unit
  Returns waiting = Unit
  Returns woken = Unit
  Returns late = Unit
  Returns (left value kept) = Comes value kept

  Returns-timed_out_of : (c : Connector) → Returns c → Returns (timed_out_of c)
  Returns-timed_out_of wants r = r
  Returns-timed_out_of waiting r = tt
  Returns-timed_out_of woken r = r
  Returns-timed_out_of late r = r
  Returns-timed_out_of (left value kept) r = r

  Returns-signalled_from : (c : Connector) → Returns c → Returns (signalled_from c)
  Returns-signalled_from wants r = r
  Returns-signalled_from waiting r = tt
  Returns-signalled_from woken r = r
  Returns-signalled_from late r = r
  Returns-signalled_from (left value kept) r = r

  Returns-if :
      (b : Bool) (t u : Handshake)
      → Returns t.connector
      → Returns u.connector
      → Returns (if b then t else u).connector
  Returns-if true t u h k = h
  Returns-if false t u h k = k

  connect_turn-Returns :
      (c : Connector) (t : Handshake)
      → t.connector ≡ c
      → Returns c
      → Returns (connect_turn dhcp c t).connector
  unfolding connect_turn after_wait
  connect_turn-Returns wants t e r = Returns-if t.held t _ (subst Returns (sym e) tt) tt
  connect_turn-Returns waiting t e r = subst Returns (sym e) tt
  connect_turn-Returns woken t e r =
      Returns-if t.held t _ (subst Returns (sym e) tt) (elim (Bool-cases (t.status == connected)) [
        | inl f ↦ rw f (signalled t.status, record w { connect_status = t.status }, rw f refl)
        | inr f ↦ rw f (signalled t.status, record w { connect_status = t.status }, rw f refl)
      ])
  connect_turn-Returns late t e r =
      Returns-if t.held t _ (subst Returns (sym e) tt) (timed_out, w, refl)
  connect_turn-Returns (left value kept) t e r = subst Returns (sym e) r

  loop_turn-Returns :
      (todo : List Action) (evts : List (Option Bytes)) (t : Handshake)
      → Returns t.connector
      → Returns (loop_turn todo evts t).connector
  unfolding loop_turn act
  loop_turn-Returns [] [] t r = r
  loop_turn-Returns [] (evt ∷ evts) t r = r
  loop_turn-Returns (signals_scan ∷ as') evts t r = r
  loop_turn-Returns (runs_dhcp ∷ as') evts t r = r
  loop_turn-Returns (sets s ∷ as') evts t r = r
  loop_turn-Returns (locks ∷ as') evts t r = Returns-if t.held t _ r r
  loop_turn-Returns (signals ∷ as') evts t r = Returns-signalled_from t.connector r
  loop_turn-Returns (unlocks ∷ as') evts t r = r
  loop_turn-Returns (ends ∷ as') evts t r = r

  move-Returns :
      (m : Move) (t : Handshake) → Returns t.connector → Returns (move dhcp m t).connector
  unfolding move
  move-Returns connects t r = connect_turn-Returns t.connector t refl r
  move-Returns times_out t r = Returns-timed_out_of t.connector r
  move-Returns loops t r = loop_turn-Returns t.todo t.evts t r

  moves-kept :
      (ms : List Move) (t : Handshake)
      → Excludes t
      → Returns t.connector
      → Excludes (moves dhcp ms t) × Returns (moves dhcp ms t).connector
  unfolding moves
  moves-kept [] t x r = (x, r)
  moves-kept (m ∷ ms) t x r =
      moves-kept ms (move dhcp m t) (move-Excludes dhcp m t x) (move-Returns m t r)

  -- From the wish for the free mutex and between two rounds of the event loop, in every order of steps:
  -- the mutex is held exactly while the loop is inside it or wifi_Connect_Network has returned with it,
  -- never both, and what that function returns is what its wait in one piece can come to.
  pub moves-Excludes :
      (ms : List Move) (t : Handshake)
      → t.connector ≡ wants
      → t.held ≡ false
      → t.todo ≡ []
      → let t' = moves dhcp ms t in
        (t'.held ≡ (inside t'.todo || keeps t'.connector))
        × ((inside t'.todo && keeps t'.connector) ≡ false)
        × ((value : ℤ) (kept : Bool) → t'.connector ≡ left value kept → Comes value kept)
  moves-Excludes ms t c h a =
      let start : Excludes t = record {
        owner = rw (c, h, a) refl;
        alone = rw (c, a) refl;
        shape = rw a refl;
      } in
      let (x, r) = moves-kept ms t start (subst Returns (sym c) tt) in
      (x.owner, x.alone, λ value kept e. subst Returns e r)
