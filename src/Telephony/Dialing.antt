-- ===== src/Telephony/Dialing.antt =====
-- What the dial test comes to (tel_test/zib_dial_test.cpp).
use multi_test.Prelude.{
  ℕ, ◌≤◌, ◌≡◌, Bool, true, false, List, [], ◌∷◌, Option, none, some, arith, Option-cases,
  Bool-cases, inl, inr, refl,
}
use mathlib.Core.Path.{subst}
use multi_test.Prelude.Int.{ℤ, pos}
use multi_test.Prelude.Text.{Bytes}
use multi_test.Prelude.Fault.{◌>>=◌, >>=-eq-some}
use multi_test.Prelude.Buffer.{zeros}
use multi_test.Telephony.Memory.{
  RilRequest, Statics, Memory, chars, card, null, get_imsi, get_sim_status, dial,
}
use multi_test.Telephony.Replies.{ril_on_request_complete}
use multi_test.Telephony.Client.{
  Phone, unused, register_client, de_register_client, get_instance, app_client,
  register_client_callback, find_service, service_tries,
}
use multi_test.Telephony.Requests.{
  Platform, Item, string16, int32, to_status, send_transact, send_request, ls_api_plain,
  ls_api_get_imsi, ls_api_get_sim_status, ls_api_dial,
}
use multi_test.Telephony.DialTest.{
  Report, got_imsi, sim_status, dialed, app_states, printed_imsi, printed_card, no_card,
  get_imsi_test, get_sim_status_test, dial_test, zib_dial_test,
}

-- The pointers to the client object.
abbrev HasClient : {S : Type 0} → Phone S → Type 0
HasClient w = (w.m_instance ≡ true) × (w.m_client_instance ≡ true)

last_part :
    {A B : Type 0} {a a' : A} {b b' : B}
    → ◌≡◌ {A = Option (A × B)} (some (a, b)) (some (a', b'))
    → b ≡ b'
last_part h = ground arith

last_of_three :
    {A B C : Type 0} {a a' : A} {b b' : B} {c c' : C}
    → ◌≡◌ {A = Option (A × B × C)} (some (a, b, c)) (some (a', b', c'))
    → c ≡ c'
last_of_three h = ground arith

register_client-HasClient :
    {S : Type 0} (answers : ℕ → Bool) (callbacks : Bool) (w w' : Phone S)
    → register_client answers callbacks w ≡ some w'
    → HasClient w'
unfolding register_client get_instance app_client register_client_callback
register_client-HasClient answers callbacks w w' h = ground arith

-- Behind its end, a registration uses the deleted object.
ended-register_client :
    {S : Type 0} (answers : ℕ → Bool) (callbacks : Bool) (w w' : Phone S)
    → de_register_client w ≡ some w'
    → HasClient w
    → register_client answers callbacks w' ≡ none
unfolding de_register_client register_client get_instance
ended-register_client answers callbacks w w' h c = ground arith

-- A client that is registered without a service.
abbrev alone : {S : Type 0} → Statics → S → Phone S
alone statics service = record (unused statics service) {
  m_instance = true;
  m_client_instance = true;
  live = true;
  s_register_client = true;
  s_client_reg_called = true;
  has_callbacks = true;
}

register_client-alone :
    {S : Type 0} (answers : ℕ → Bool) (statics : Statics) (service : S)
    → find_service answers service_tries ≡ false
    → register_client answers true (unused statics service) ≡ some (alone statics service)
unfolding register_client get_instance app_client register_client_callback
register_client-alone answers statics service h = ground arith

-- What the request to dial is written from.
abbrev pub dial_items : Bytes → List Item
dial_items number = string16 number ∷ int32 (pos 0) ∷ int32 (pos 0) ∷ []

module _ {P S : Type 0} (t : Platform P S) where
  send_transact-HasClient :
      (request : RilRequest) (items : List Item) (m m' : Memory) (w w' : Phone S)
      → send_transact t request items m w ≡ some (m', w')
      → HasClient w
      → HasClient w'
  unfolding send_transact
  send_transact-HasClient request items m m' w w' h c =
      let reply = (t.transact w.service request items).2 in
      elim (Option-cases
        (ril_on_request_complete t.reader t.ril_max_calls t.request_of reply w.statics m)) [
          | inl e ↦ ground arith
          | inr (r, e) ↦ ground arith
        ]

  send_request-HasClient :
      (request : RilRequest) (items : List Item) (m m' : Memory) (ret : ℤ) (w w' : Phone S)
      → send_request t request items m w ≡ some (ret, m', w')
      → HasClient w
      → HasClient w'
  unfolding send_request
  send_request-HasClient request items m m' ret w w' h c =
      elim (Option-cases (send_transact t request items m w)) [
        | inl e ↦ ground arith
        | inr ((m1, w1), e) ↦ ground (arith, send_transact-HasClient request items m m1 w w1 e c)
      ]

  -- The value of a request does not change the client.
  to_status-same :
      (ret ret' : ℤ) (m m' : Memory) (w w' : Phone S)
      → to_status t (ret, m, w) ≡ some (ret', m', w')
      → w ≡ w'
  to_status-same ret ret' m m' w w' h = ground arith

  requested-HasClient :
      (request : RilRequest) (items : List Item) (m m' : Memory) (ret : ℤ) (w w' : Phone S)
      → (send_request t request items m w >>= to_status t) ≡ some (ret, m', w')
      → HasClient w
      → HasClient w'
  requested-HasClient request items m m' ret w w' h c =
      let ((ret1, m1, w1), e, k) =
        >>=-eq-some (send_request t request items m w) (to_status t) _ h in
      subst HasClient (to_status-same ret1 ret m1 m' w1 w' k)
        (send_request-HasClient request items m m1 ret1 w w1 e c)

  get_imsi_test-HasClient :
      (r : Report) (w w' : Phone S) → get_imsi_test t w ≡ some (r, w') → HasClient w → HasClient w'
  unfolding get_imsi_test ls_api_get_imsi ls_api_plain
  get_imsi_test-HasClient r w w' h c =
      let ((ret, m, w1), e, k) = >>=-eq-some (ls_api_get_imsi t (chars (zeros 16)) w) _ _ h in
      let (report, e', k') = >>=-eq-some (printed_imsi (ret, m)) _ _ k in
      subst HasClient (last_part k')
        (requested-HasClient get_imsi [] (chars (zeros 16)) m ret w w1 e c)

  get_sim_status_test-HasClient :
      (max_apps : ℕ) (r : Report) (w w' : Phone S)
      → get_sim_status_test t max_apps w ≡ some (r, w')
      → HasClient w
      → HasClient w'
  unfolding get_sim_status_test ls_api_get_sim_status ls_api_plain
  get_sim_status_test-HasClient max_apps r w w' h c =
      let status = card (no_card max_apps) in
      let ((ret, m, w1), e, k) = >>=-eq-some (ls_api_get_sim_status t status w) _ _ h in
      let (report, e', k') = >>=-eq-some (printed_card (ret, m)) _ _ k in
      subst HasClient (last_part k') (requested-HasClient get_sim_status [] status m ret w w1 e c)

  dial_test-HasClient :
      (number : Bytes) (r : Report) (ret : ℤ) (w w' : Phone S)
      → dial_test t number w ≡ some (r, ret, w')
      → HasClient w
      → HasClient w'
  unfolding dial_test ls_api_dial
  dial_test-HasClient number r ret w w' h c =
      let ((ret1, m, w1), e, k) = >>=-eq-some (ls_api_dial t number w) _ _ h in
      let same : w1 ≡ w' = ground arith in
      subst HasClient same (requested-HasClient dial (dial_items number) null m ret1 w w1 e c)

  -- A dial test that ends is the last one of the process: any later one uses the deleted object.
  pub zib_dial_test-once :
      (answers again : ℕ → Bool) (max_apps : ℕ) (number number' : Bytes) (w w' : Phone S)
      (reports : List Report) (ret : ℤ)
      → zib_dial_test t answers max_apps number w ≡ some (reports, ret, w')
      → zib_dial_test t again max_apps number' w' ≡ none
  unfolding zib_dial_test
  zib_dial_test-once answers again max_apps number number' w w' reports ret h =
      let (w1, e1, k1) = >>=-eq-some (register_client answers true w) _ _ h in
      let ((r2, w2), e2, k2) = >>=-eq-some (get_imsi_test t w1) _ _ k1 in
      let ((r3, w3), e3, k3) = >>=-eq-some (get_sim_status_test t max_apps w2) _ _ k2 in
      let ((r4, v, w4), e4, k4) = >>=-eq-some (dial_test t number w3) _ _ k3 in
      let (w5, e5, k5) = >>=-eq-some (de_register_client w4) _ _ k4 in
      let c = dial_test-HasClient number r4 v w3 w4 e4 (
        get_sim_status_test-HasClient max_apps r3 w2 w3 e3
          (get_imsi_test-HasClient r2 w1 w2 e2 (register_client-HasClient answers true w w1 e1))) in
      let c' =
        subst (λ v5. register_client again true v5 ≡ none) (last_of_three k5)
          (ended-register_client again true w4 w5 e5 c) in
      rw c' refl

  -- Without the service a request leaves everything as it was, and its value is 0.
  requested-not_ready :
      (request : RilRequest) (items : List Item) (m : Memory) (w : Phone S)
      → t.data_size items ≤ t.max_command_bytes
      → w.live ≡ true
      → w.is_serviceready ≡ false
      → (send_request t request items m w >>= to_status t) ≡ some (pos 0, m, w)
  unfolding send_request send_transact
  requested-not_ready request items m w size live ready =
      ground (arith, Bool-cases w.m_client_instance)

  get_imsi_test-not_ready :
      (w : Phone S)
      → t.data_size [] ≤ t.max_command_bytes
      → w.live ≡ true
      → w.is_serviceready ≡ false
      → get_imsi_test t w ≡ some (got_imsi [], w)
  unfolding get_imsi_test ls_api_get_imsi ls_api_plain
  get_imsi_test-not_ready w size live ready =
      rw (requested-not_ready get_imsi [] (chars (zeros 16)) w size live ready) refl

  get_sim_status_test-not_ready :
      (max_apps : ℕ) (w : Phone S)
      → t.data_size [] ≤ t.max_command_bytes
      → w.live ≡ true
      → w.is_serviceready ≡ false
      → get_sim_status_test t max_apps w ≡ some (sim_status (pos 0) [], w)
  unfolding get_sim_status_test ls_api_get_sim_status ls_api_plain app_states
  get_sim_status_test-not_ready max_apps w size live ready =
      rw (requested-not_ready get_sim_status [] (card (no_card max_apps)) w size live ready) refl

  dial_test-not_ready :
      (number : Bytes) (w : Phone S)
      → t.data_size (dial_items number) ≤ t.max_command_bytes
      → w.live ≡ true
      → w.is_serviceready ≡ false
      → dial_test t number w ≡ some (dialed, pos 0, w)
  unfolding dial_test ls_api_dial
  dial_test-not_ready number w size live ready =
      rw (requested-not_ready dial (dial_items number) null w size live ready) refl

  -- In a new process and without a service, the dial test does all that it does: it prints an empty
  -- IMSI, a card of state 0 without applications and a dialled number, and gives 0.
  pub zib_dial_test-no_service :
      (answers : ℕ → Bool) (max_apps : ℕ) (number : Bytes) (statics : Statics) (service : S)
      → find_service answers service_tries ≡ false
      → t.data_size [] ≤ t.max_command_bytes
      → t.data_size (dial_items number) ≤ t.max_command_bytes
      → (w' : Phone S) × (zib_dial_test t answers max_apps number (unused statics service)
          ≡ some (got_imsi [] ∷ sim_status (pos 0) [] ∷ dialed ∷ [], pos 0, w'))
  unfolding zib_dial_test de_register_client
  zib_dial_test-no_service answers max_apps number statics service none_found size size' =
      let w1 = alone statics service in
      (
        record w1 { live = false; s_register_client = false },
        rw
            (
              register_client-alone answers statics service none_found,
              get_imsi_test-not_ready w1 size refl refl,
              get_sim_status_test-not_ready max_apps w1 size refl refl,
              dial_test-not_ready number w1 size' refl refl,
            )
            refl,
      )
