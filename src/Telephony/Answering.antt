-- ===== src/Telephony/Answering.antt =====
-- The callbacks of the dial test over the events (tel_test/zib_dial_test.cpp, tel_test/AppClient.cpp): an
-- incoming call is accepted in the thread that handles its message. None is a fault.
use multi_test.Prelude.{ℕ, zero, suc, List, [], ◌∷◌, Option, none, some}
use multi_test.Prelude.Fault.{◌>>=◌}
use multi_test.Telephony.Client.{Phone}
use multi_test.Telephony.Requests.{Platform, ls_api_accept_call}
use multi_test.Telephony.Events.{
  ProcessThread, Events, Called, on_new_sms, on_new_call, on_active_call, on_transact, handle_event,
  taken, thread_turn, Turn, arrives, handles,
}

module _ {P S : Type 0} (t : Platform P S) where
  -- `onNewSms`, `onNewCall` and `onActiveCall`.
  unfoldable pub on_called : Called → Phone S → Option (Phone S)
  unfolding ls_api_accept_call
  on_called (on_new_sms s) w = some w
  on_called (on_new_call s) w = ls_api_accept_call t w >>= λ (ret, m, w'). some w'
  on_called (on_active_call i) w = some w

  -- That many calls accepted.
  unfoldable pub accept_times : ℕ → Phone S → Option (Phone S)
  accept_times zero w = some w
  accept_times (suc k) w = ls_api_accept_call t w >>= λ (ret, m, w'). accept_times k w'

module _ {P S Q : Type 0} (pt : ProcessThread Q) (t : Platform P S) where
  -- The message that is handled next is handled by its callback, which may fault.
  unfoldable pub handle_next : Events Q → Phone S → Option (Phone S)
  unfolding on_called
  handle_next e w = elim (taken pt e) [
    | none ↦ some w
    | some (m, e') ↦ on_called t (handle_event m) w
  ]

  -- The events and the client over some turns.
  unfoldable pub client_turns : List (Turn P) → Events Q → Phone S → Option (Events Q × Phone S)
  unfolding on_transact thread_turn handle_next
  client_turns [] e w = some (e, w)
  client_turns (arrives c p ∷ ts) e w = on_transact pt t.reader c p e >>= λ e'. client_turns ts e' w
  client_turns (handles ∷ ts) e w =
      thread_turn pt e >>= λ e'. (handle_next e w >>= λ w'. client_turns ts e' w')

-- The incoming calls among the calls of callbacks.
abbrev pub incoming : List Called → ℕ
incoming [] = 0
incoming (on_new_sms s ∷ cs) = incoming cs
incoming (on_new_call s ∷ cs) = suc (incoming cs)
incoming (on_active_call i ∷ cs) = incoming cs
