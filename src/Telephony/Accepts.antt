-- ===== src/Telephony/Accepts.antt =====
-- The callbacks called by some turns and what they do to the client (tel_test/zib_dial_test.cpp).
use multi_test.Prelude.{
  true, List, [], ◌∷◌, ◌++◌, Option, none, some, ◌≡◌, refl, sym, ◌∙◌, ap, Option-cases, inl, inr,
}
use mathlib.Core.List.{append_assoc, append-nil}
use multi_test.Prelude.Fault.{◌>>=◌}
use multi_test.Telephony.Client.{Phone}
use multi_test.Telephony.Requests.{Platform, ls_api_accept_call}
use multi_test.Telephony.Events.{
  ProcessThread, Events, EventCode, Message, Called, on_transact, handle_event, taken, thread_turn,
  taken-none, taken-some, thread_turn-none, thread_turn-some, sms_message, call_message,
  active_message, new_sms, call_incoming, call_active, other_event, call_id, Turn, arrives, handles,
  run_turns,
}
use multi_test.Telephony.Answering.{on_called, handle_next, client_turns, accept_times, incoming}

module _ {P S Q : Type 0} (pt : ProcessThread Q) (t : Platform P S) where
  -- The callbacks called by some turns, and what they do to any client.
  abbrev pub Accepts : List (Turn P) → Events Q → Type 0
  Accepts ts e =
      (e' : Events Q) × (made : List Called) × (run_turns pt t.reader ts e ≡ some e')
      × (e'.called ≡ e.called ++ made)
      × ((w : Phone S)
          → client_turns pt t ts e w ≡ (accept_times t (incoming made) w >>= λ w'. some (e', w')))

  handle_next-none :
      (e : Events Q) (w : Phone S) → taken pt e ≡ none → handle_next pt t e w ≡ some w
  unfolding handle_next
  handle_next-none e w h = rw (h, handle_next) refl

  handle_next-some :
      (e e1 : Events Q) (w : Phone S) (m : Message)
      → taken pt e ≡ some (m, e1)
      → handle_next pt t e w ≡ on_called t (handle_event m) w
  unfolding handle_next
  handle_next-some e e1 w m h = rw (h, handle_next) refl

  -- What an arrival leaves.
  on_transact-sent :
      (c : EventCode) (p : P) (e : Events Q) (q : Q)
      → e.thread ≡ some q
      → (e' : Events Q) × (q' : Q) × (on_transact pt t.reader c p e ≡ some e')
        × (e'.thread ≡ some q')
        × (e'.called ≡ e.called)
        × (e'.callbacks ≡ e.callbacks)
  unfolding on_transact
  on_transact-sent new_sms p e q h =
      let q' = pt.send_message (sms_message (t.reader.read_string p).0) q in
      (record e { thread = some q' }, q', rw h refl, refl, refl, refl)
  on_transact-sent call_incoming p e q h =
      let q' = pt.send_message (call_message (t.reader.read_string p).0) q in
      (record e { thread = some q' }, q', rw h refl, refl, refl, refl)
  on_transact-sent call_active p e q h =
      let q' = pt.send_message (active_message (call_id (t.reader.read_int32 p).0)) q in
      (record e { thread = some q' }, q', rw h refl, refl, refl, refl)
  on_transact-sent other_event p e q h = (e, q, refl, h, refl, refl)

  -- A turn that calls no callback.
  silent-Accepts :
      (u : Turn P) (ts : List (Turn P)) (e e1 : Events Q)
      → run_turns pt t.reader (u ∷ ts) e ≡ run_turns pt t.reader ts e1
      → ((w : Phone S) → client_turns pt t (u ∷ ts) e w ≡ client_turns pt t ts e1 w)
      → e1.called ≡ e.called
      → Accepts ts e1
      → Accepts (u ∷ ts) e
  silent-Accepts u ts e e1 run go same (e', made, r, c, k) =
      (e', made, run ∙ r, c ∙ ap (λ l. l ++ made) same, λ w. go w ∙ k w)

  on_called-times :
      (m : Message) (made : List Called) (e' : Events Q)
      (run : Phone S → Option (Events Q × Phone S))
      → ((w : Phone S) → run w ≡ (accept_times t (incoming made) w >>= λ w'. some (e', w')))
      → (w : Phone S)
      → (on_called t (handle_event m) w >>= run)
        ≡ (accept_times t (incoming (handle_event m ∷ made)) w >>= λ w'. some (e', w'))
  unfolding on_called handle_event accept_times
  on_called-times (sms_message s) made e' run k w = k w
  on_called-times (active_message i) made e' run k w = k w
  on_called-times (call_message s) made e' run k w = elim (Option-cases (ls_api_accept_call t w)) [
    | inl f ↦ rw f refl
    | inr ((ret, result, w'), f) ↦ rw f (k w')
  ]

  -- The callback of a message, then the rest.
  on_called-Accepts :
      (m : Message) (ts : List (Turn P)) (e e1 : Events Q)
      → run_turns pt t.reader (handles ∷ ts) e ≡ run_turns pt t.reader ts e1
      → ((w : Phone S)
          → client_turns pt t (handles ∷ ts) e w
            ≡ (on_called t (handle_event m) w >>= λ w'. client_turns pt t ts e1 w'))
      → e1.called ≡ e.called ++ handle_event m ∷ []
      → Accepts ts e1
      → Accepts (handles ∷ ts) e
  on_called-Accepts m ts e e1 run go same (e', made, r, c, k) = (
    e',
    handle_event m ∷ made,
    run ∙ r,
    c ∙ ap (λ l. l ++ made) same ∙ append_assoc e.called (handle_event m ∷ []) made,
    λ w. go w ∙ on_called-times m made e' (client_turns pt t ts e1) k w,
  )

  pub client_turns-Accepts :
      (ts : List (Turn P)) (e : Events Q) (q : Q)
      → e.thread ≡ some q
      → e.callbacks ≡ true
      → Accepts ts e
  unfolding run_turns client_turns accept_times
  client_turns-Accepts [] e q h c = (e, [], refl, sym (append-nil e.called), λ w. refl)
  client_turns-Accepts (arrives x p ∷ ts) e q h c =
      let (e1, q1, ran, h1, same, c1) = on_transact-sent x p e q h in
      silent-Accepts (arrives x p) ts e e1 (rw ran refl) (λ w. rw ran refl) same
        (client_turns-Accepts ts e1 q1 h1 (c1 ∙ c))
  client_turns-Accepts (handles ∷ ts) e q h c = elim (Option-cases (pt.next_message q)) [
    | inl n ↦
        let none_taken = taken-none pt e q h n in
        let ran : thread_turn pt e ≡ some e = thread_turn-none pt e none_taken in
        silent-Accepts handles ts e e (rw ran refl)
          (λ w. rw (ran, handle_next-none e w none_taken) refl) refl
          (client_turns-Accepts ts e q h c)
    | inr ((m, q'), n) ↦
        let e0 : Events Q = record e { thread = some q' } in
        let e1 : Events Q = record e0 { called = e.called ++ handle_event m ∷ [] } in
        let took = taken-some pt e q q' m h n in
        let ran : thread_turn pt e ≡ some e1 = thread_turn-some pt e e0 m took c in
        on_called-Accepts m ts e e1 (rw ran refl)
          (λ w. rw (ran, handle_next-some e e0 w m took) refl) refl
          (client_turns-Accepts ts e1 q' refl c)
  ]
