-- ===== src/Wifi/Mutex.antt =====
-- Who holds the mutex, `wifi_Connect_Network` or `wifiEventLoop` (ls_wifi_test.c).
use multi_test.Prelude.{
  ℕ, Bool, true, false, not, ◌&&◌, ◌||◌, List, [], ◌∷◌, Option, if◌then◌else◌, ◌≡◌, refl, arith,
  ◌==◌,
}
use multi_test.Prelude.Text.{Bytes, codes}
use multi_test.Wifi.Connect.{mentions, connecting}
use multi_test.Wifi.Handshake.{
  Action, signals_scan, runs_dhcp, sets, locks, signals, unlocks, ends, round, actions_of,
  Connector, wants, waiting, woken, late, left, Handshake, connect_turn, act, loop_turn,
  timed_out_of, signalled_from, Move, connects, times_out, loops, move,
}

-- Whether the event loop holds the mutex, and whether it goes in and out of it in turn.
abbrev pub inside : List Action → Bool
inside [] = false
inside (signals_scan ∷ as') = inside as'
inside (runs_dhcp ∷ as') = inside as'
inside (sets s ∷ as') = inside as'
inside (locks ∷ as') = false
inside (signals ∷ as') = inside as'
inside (unlocks ∷ as') = true
inside (ends ∷ as') = false

abbrev formed : List Action → Bool
formed [] = true
formed (signals_scan ∷ as') = formed as'
formed (runs_dhcp ∷ as') = formed as'
formed (sets s ∷ as') = formed as'
formed (locks ∷ as') = inside as' && formed as'
formed (signals ∷ as') = formed as'
formed (unlocks ∷ as') = not (inside as') && formed as'
formed (ends ∷ as') = formed as'

round-formed :
    (scan conn idle psk reject term : Bool)
    → (formed (round scan conn idle psk reject term) ≡ true)
      × (inside (round scan conn idle psk reject term) ≡ false)
round-formed scan conn idle psk reject term = (ground arith, ground arith)

actions_of-formed :
    (evt : Option Bytes) (status : ℕ)
    → (formed (actions_of evt status) ≡ true) × (inside (actions_of evt status) ≡ false)
unfolding actions_of
actions_of-formed evt status =
    round-formed (mentions evt (codes "SCAN-RESULTS")) (mentions evt (codes "CTRL-EVENT-CONNECTED"))
      (if status == connecting then false else true)
      (mentions evt (codes "pre-shared key may be incorrect")) (mentions evt (codes "ASSOC-REJECT"))
      (mentions evt (codes "TERMINATING"))

-- Whether the connector has kept the mutex.
abbrev pub keeps : Connector → Bool
keeps wants = false
keeps waiting = false
keeps woken = false
keeps late = false
keeps (left value kept) = kept

-- The mutex is held by exactly one of the two, or by neither and then it is free.
pub record Excludes (t : Handshake) : Type 0 where
  pub owner : t.held ≡ (inside t.todo || keeps t.connector)
  pub alone : (inside t.todo && keeps t.connector) ≡ false
  pub shape : formed t.todo ≡ true

connect_turn-Excludes :
    (dhcp : ℕ → Bool) (c : Connector) (t : Handshake)
    → t.connector ≡ c
    → Excludes t
    → Excludes (connect_turn dhcp c t)
unfolding connect_turn
connect_turn-Excludes dhcp wants t e x = ground arith
connect_turn-Excludes dhcp waiting t e x = x
connect_turn-Excludes dhcp woken t e x = ground arith
connect_turn-Excludes dhcp late t e x = ground arith
connect_turn-Excludes dhcp (left value kept) t e x = x

timed_out_of-keeps : (c : Connector) → keeps (timed_out_of c) ≡ keeps c
timed_out_of-keeps wants = refl
timed_out_of-keeps c = refl

signalled_from-keeps : (c : Connector) → keeps (signalled_from c) ≡ keeps c
signalled_from-keeps wants = refl
signalled_from-keeps c = refl

loop_turn-Excludes :
    (todo : List Action) (evts : List (Option Bytes)) (t : Handshake)
    → t.todo ≡ todo
    → Excludes t
    → Excludes (loop_turn todo evts t)
unfolding loop_turn act
loop_turn-Excludes [] [] t a x = x
loop_turn-Excludes [] (evt ∷ evts) t a x = ground (arith, actions_of-formed evt t.status)
loop_turn-Excludes (signals_scan ∷ as') evts t a x = ground arith
loop_turn-Excludes (runs_dhcp ∷ as') evts t a x = ground arith
loop_turn-Excludes (sets s ∷ as') evts t a x = ground arith
loop_turn-Excludes (locks ∷ as') evts t a x = ground arith
loop_turn-Excludes (signals ∷ as') evts t a x = ground (arith, signalled_from-keeps t.connector)
loop_turn-Excludes (unlocks ∷ as') evts t a x = ground arith
loop_turn-Excludes (ends ∷ as') evts t a x = ground arith

pub move-Excludes :
    (dhcp : ℕ → Bool) (m : Move) (t : Handshake) → Excludes t → Excludes (move dhcp m t)
unfolding move
move-Excludes dhcp connects t x = connect_turn-Excludes dhcp t.connector t refl x
move-Excludes dhcp times_out t x = ground (arith, timed_out_of-keeps t.connector)
move-Excludes dhcp loops t x = loop_turn-Excludes t.todo t.evts t refl x
