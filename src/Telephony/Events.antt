-- ===== src/Telephony/Events.antt =====
-- Events (tel_test/AppClient.cpp): `onTransact` gives the process thread a message for each event,
-- `handleMessage` calls the registered callback. The thread, which is not among the sources, is a
-- parameter.
use multi_test.Prelude.{Bool, true, List, [], ◌∷◌, ◌++◌, Option, none, some, ◌≡◌, refl, arith}
use multi_test.Prelude.Int.{ℤ, pos}
use multi_test.Prelude.Text.{Bytes}
use multi_test.Prelude.Fault.{◌>>=◌, ◌>>◌, require}
use multi_test.Telephony.Memory.{Reader}

-- RIL_UNSOL_RESPONSE_NEW_SMS, RIL_CALL_INCOMING, RIL_CALL_ACTIVE, and any other code.
pub data EventCode : Type 0 where
  new_sms call_incoming call_active other_event : EventCode

-- A message body: its event and its data.
pub data Message : Type 0 where
  sms_message : Option Bytes → Message
  call_message : Option Bytes → Message
  active_message : ℤ → Message

-- A call of a callback: `onNewSms`, `onNewCall`, `onActiveCall`.
pub data Called : Type 0 where
  on_new_sms : Option Bytes → Called
  on_new_call : Option Bytes → Called
  on_active_call : ℤ → Called

-- `ProcessThread`: `send_message`, and the message that it hands to `handleMessage` next, if any.
pub record ProcessThread (Q : Type 0) : Type 0 where
  pub send_message : Message → Q → Q
  pub next_message : Q → Option (Message × Q)

-- `p_thread`, none if it is NULL; whether the callbacks are set; the calls made.
pub record Events (Q : Type 0) : Type 0 where
  pub thread : Option Q
  pub callbacks : Bool
  pub called : List Called

abbrev pub call_id : Option ℤ → ℤ
call_id none = pos 0
call_id (some v) = v

unfoldable pub handle_event : Message → Called
handle_event (sms_message s) = on_new_sms s
handle_event (call_message s) = on_new_call s
handle_event (active_message v) = on_active_call v

-- The handler of the message `m`; none is a call through a callback that is NULL.
unfoldable pub handle_message : {Q : Type 0} → Message → Events Q → Option (Events Q)
unfolding handle_event
handle_message m w =
    require w.callbacks >> some (record w { called = w.called ++ handle_event m ∷ [] })

-- What happens: the service sends an event, or the thread takes its turn.
pub data Turn (P : Type 0) : Type 0 where
  arrives : EventCode → P → Turn P
  handles : Turn P

module _ {Q : Type 0} (pt : ProcessThread Q) where
  -- `p_thread->sendMessage`; none is a call through NULL.
  abbrev send : Message → Events Q → Option (Events Q)
  send m w = elim w.thread [
    | none ↦ none
    | some q ↦ some (record w { thread = some (pt.send_message m q) })
  ]

  unfoldable pub on_transact :
      {P : Type 0} → Reader P → EventCode → P → Events Q → Option (Events Q)
  on_transact r new_sms p w = send (sms_message (r.read_string p).0) w
  on_transact r call_incoming p w = send (call_message (r.read_string p).0) w
  on_transact r call_active p w = send (active_message (call_id (r.read_int32 p).0)) w
  on_transact r other_event p w = some w

  -- The message that the thread handles in its turn, and the state with the thread behind it.
  unfoldable pub taken : Events Q → Option (Message × Events Q)
  taken w = elim w.thread [
    | none ↦ none
    | some q ↦ elim (pt.next_message q) [
      | none ↦ none
      | some (m, q') ↦ some (m, record w { thread = some q' })
    ]
  ]

  unfoldable pub thread_turn : Events Q → Option (Events Q)
  unfolding handle_message
  thread_turn w = elim (taken w) [ none ↦ some w | some (m, w') ↦ handle_message m w' ]

  unfoldable pub run_turns : {P : Type 0} → Reader P → List (Turn P) → Events Q → Option (Events Q)
  unfolding on_transact thread_turn
  run_turns r [] w = some w
  run_turns r (arrives c p ∷ ts) w = on_transact r c p w >>= run_turns r ts
  run_turns r (handles ∷ ts) w = thread_turn w >>= run_turns r ts

  pub taken-none :
      (w : Events Q) (q : Q) → w.thread ≡ some q → pt.next_message q ≡ none → taken w ≡ none
  unfolding taken
  taken-none w q e n = ground arith

  pub taken-some :
      (w : Events Q) (q q' : Q) (m : Message)
      → w.thread ≡ some q
      → pt.next_message q ≡ some (m, q')
      → taken w ≡ some (m, record w { thread = some q' })
  unfolding taken
  taken-some w q q' m e n = ground arith

  pub thread_turn-none : (w : Events Q) → taken w ≡ none → thread_turn w ≡ some w
  unfolding thread_turn
  thread_turn-none w e = rw (e, thread_turn) refl

  pub thread_turn-some :
      (w w' : Events Q) (m : Message)
      → taken w ≡ some (m, w')
      → w'.callbacks ≡ true
      → thread_turn w ≡ some (record w' { called = w'.called ++ handle_event m ∷ [] })
  unfolding thread_turn handle_message
  thread_turn-some w w' m e c = rw (e, thread_turn, c) refl
