-- ===== src/Wifi/Handshake.antt =====
-- The wait of `wifi_Connect_Network` and the thread of `wifiEventLoop` (ls_wifi_test.c), a step at a
-- time, with the mutex `sMutxDhcp` and the condition `sCondDhcp` between them.
use multi_test.Prelude.{ℕ, Bool, true, false, List, [], ◌∷◌, ◌++◌, Option, if◌then◌else◌, ◌==◌}
use multi_test.Prelude.Int.{ℤ, pos}
use multi_test.Prelude.Text.{Bytes, codes}
use multi_test.Wifi.Connect.{
  disabled_unknown_reason, disabled_auth_failure, disabled_association_reject, connected,
  connecting, dhcp_tries, dhcp_verdict, mentions,
}

-- The steps of a round of the event loop behind its wait for an event.
pub data Action : Type 0 where
  signals_scan runs_dhcp : Action
  sets : ℕ → Action
  locks signals unlocks ends : Action

-- A status told.
abbrev pub tells : ℕ → List Action
tells status = sets status ∷ locks ∷ signals ∷ unlocks ∷ []

abbrev pub when : Bool → List Action → List Action
when test actions = if test then actions else []

-- By the texts that an event mentions, in the order of the tests; `idle` is whether the status is not
-- CONNECTING.
abbrev pub round : (scan conn idle psk reject term : Bool) → List Action
round scan conn idle psk reject term =
    when scan (signals_scan ∷ [])
    ++ (when conn (when idle (runs_dhcp ∷ []) ++ tells connected)
        ++ (when psk (tells disabled_auth_failure)
            ++ (when reject (tells disabled_association_reject) ++ when term (ends ∷ []))))

unfoldable pub actions_of : Option Bytes → ℕ → List Action
actions_of evt status =
    round (mentions evt (codes "SCAN-RESULTS")) (mentions evt (codes "CTRL-EVENT-CONNECTED"))
      (if status == connecting then false else true)
      (mentions evt (codes "pre-shared key may be incorrect")) (mentions evt (codes "ASSOC-REJECT"))
      (mentions evt (codes "TERMINATING"))

-- Where `wifi_Connect_Network` stands: before it locks the mutex, in its wait, woken by the signal or by
-- its time limit and without the mutex, or behind its return, with its value and whether it kept the
-- mutex.
pub data Connector : Type 0 where
  wants waiting woken late : Connector
  left : ℤ → Bool → Connector

-- `held` is whether a thread has the mutex, `todo` what the event loop has left of its round, `evts` the
-- events to come.
pub record Handshake : Type 0 where
  pub status : ℕ
  pub held : Bool
  pub connector : Connector
  pub todo : List Action
  pub evts : List (Option Bytes)

-- A wait gives the mutex back.
unfoldable pub connect_turn : (ℕ → Bool) → Connector → Handshake → Handshake
unfolding dhcp_tries
connect_turn dhcp wants t = if t.held then t else record t { connector = waiting }
connect_turn dhcp waiting t = t
connect_turn dhcp woken t =
    if t.held
    then t
    else if t.status == connected
    then record t { connector = left (dhcp_verdict (dhcp_tries dhcp 3)) false }
    else record t { connector = left (pos t.status) true; held = true }
connect_turn dhcp late t =
    if t.held
    then t
    else record t { connector = left (pos disabled_unknown_reason) true; held = true }
connect_turn dhcp (left value kept) t = t

-- The time limit of the wait, and the signal.
abbrev pub timed_out_of : Connector → Connector
timed_out_of waiting = late
timed_out_of wants = wants
timed_out_of woken = woken
timed_out_of late = late
timed_out_of (left value kept) = left value kept

abbrev pub signalled_from : Connector → Connector
signalled_from waiting = woken
signalled_from wants = wants
signalled_from woken = woken
signalled_from late = late
signalled_from (left value kept) = left value kept

unfoldable pub act : Action → List Action → Handshake → Handshake
act signals_scan rest t = record t { todo = rest }
act runs_dhcp rest t = record t { todo = rest }
act (sets status) rest t = record t { status = status; todo = rest }
act locks rest t = if t.held then t else record t { held = true; todo = rest }
act signals rest t = record t { connector = signalled_from t.connector; todo = rest }
act unlocks rest t = record t { held = false; todo = rest }
act ends rest t = record t { todo = []; evts = [] }

-- With nothing left of its round the loop takes the next event, if there is one.
unfoldable pub loop_turn : List Action → List (Option Bytes) → Handshake → Handshake
unfolding act actions_of
loop_turn [] [] t = t
loop_turn [] (evt ∷ evts) t = record t { todo = actions_of evt t.status; evts = evts }
loop_turn (a ∷ rest) evts t = act a rest t

pub data Move : Type 0 where
  connects times_out loops : Move

unfoldable pub move : (ℕ → Bool) → Move → Handshake → Handshake
unfolding connect_turn loop_turn
move dhcp connects t = connect_turn dhcp t.connector t
move dhcp times_out t = record t { connector = timed_out_of t.connector }
move dhcp loops t = loop_turn t.todo t.evts t

unfoldable pub moves : (ℕ → Bool) → List Move → Handshake → Handshake
unfolding move
moves dhcp [] t = t
moves dhcp (m ∷ ms) t = moves dhcp ms (move dhcp m t)
