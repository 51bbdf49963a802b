-- ===== src/Telephony/DialTest.antt =====
-- The dial test (tel_test/zib_dial_test.cpp): a registration, three requests and the end. What it prints
-- is a list of reports. None is a fault.
use multi_test.Prelude.{
  ℕ, zero, suc, Bool, true, false, List, [], ◌∷◌, Option, none, some, if◌then◌else◌, replicate,
}
use multi_test.Prelude.Int.{is_zero, ℤ, pos, negsuc, pos_part, ltb_ℤ}
use multi_test.Prelude.Text.{Bytes, codes}
use multi_test.Prelude.Fault.{◌>>=◌}
use multi_test.Prelude.Buffer.{string_at, zeros}
use multi_test.Telephony.Memory.{Application, CardStatus, Memory, chars, card, calls, null}
use multi_test.Telephony.Client.{Phone, register_client, de_register_client}
use multi_test.Telephony.Requests.{
  Platform, ls_api_get_imsi, ls_api_get_sim_status, ls_api_dial, ls_api_send_at, ls_api_get_smsc,
  ls_api_sendsms,
}

-- What is printed. The states of the card and of its applications are numbers.
pub data Report : Type 0 where
  got_imsi : Bytes → Report
  imsi_failed : Report
  sim_status : ℤ → List ℤ → Report
  sim_failed : Report
  dialed : Report
  dial_failed : Report
  answered : Bytes → Report
  smsc_failed : Report
  sms_failed : Report
  sms_sent : Report

abbrev no_application : Application
no_application = record {
  app_type = pos 0;
  app_state = pos 0;
  perso_substate = pos 0;
  has_aid = false;
  has_label = false;
  pin1_replaced = pos 0;
  pin1 = pos 0;
  pin2 = pos 0;
}

-- `memset(&cardstatus, 0, sizeof(cardstatus))`, with RIL_CARD_MAX_APPS applications.
abbrev pub no_card : ℕ → CardStatus
no_card max_apps = record {
  card_state = pos 0;
  universal_pin_state = pos 0;
  gsm_umts_subscription_app_index = pos 0;
  cdma_subscription_app_index = pos 0;
  ims_subscription_app_index = pos 0;
  num_applications = pos 0;
  applications = replicate max_apps no_application;
}

-- The loop over the applications, by the rounds left.
unfoldable pub app_states : ℕ → List Application → Option (List ℤ)
app_states zero as' = some []
app_states (suc n) [] = none
app_states (suc n) (a ∷ as') = app_states n as' >>= λ states. some (a.app_state ∷ states)

abbrev pub printed_imsi : ℤ × Memory → Option Report
printed_imsi (ret, chars imsi) =
    if is_zero ret then (string_at imsi 0 >>= λ s. some (got_imsi s)) else some imsi_failed
printed_imsi (ret, null) = none
printed_imsi (ret, card c) = none
printed_imsi (ret, calls cs) = none

-- The string in an array of the caller.
abbrev text_of : Memory → Option Bytes
text_of (chars text) = string_at text 0
text_of null = none
text_of (card c) = none
text_of (calls cs) = none

abbrev message : Bytes
message = codes "11000b818128212537f80008ff1000680065006c006c006f002c4f60597d"

abbrev pub printed_card : ℤ × Memory → Option Report
printed_card (ret, card c) =
    if is_zero ret
    then (app_states (pos_part c.num_applications) c.applications >>= λ states.
        some (sim_status c.card_state states))
    else some sim_failed
printed_card (ret, null) = none
printed_card (ret, chars b) = none
printed_card (ret, calls cs) = none

module _ {P S : Type 0} (t : Platform P S) where
  unfoldable pub get_imsi_test : Phone S → Option (Report × Phone S)
  unfolding ls_api_get_imsi
  get_imsi_test w = do
    (ret, imsi, w') ← ls_api_get_imsi t (chars (zeros 16)) w
    report ← printed_imsi (ret, imsi)
    some (report, w')

  unfoldable pub get_sim_status_test : ℕ → Phone S → Option (Report × Phone S)
  unfolding ls_api_get_sim_status app_states
  get_sim_status_test max_apps w = do
    (ret, status, w') ← ls_api_get_sim_status t (card (no_card max_apps)) w
    report ← printed_card (ret, status)
    some (report, w')

  unfoldable pub dial_test : Bytes → Phone S → Option (Report × ℤ × Phone S)
  unfolding ls_api_dial
  dial_test number w = do
    (ret, m, w') ← ls_api_dial t number w
    if is_zero ret then some (dialed, pos 0, w') else some (dial_failed, negsuc 0, w')

  -- A command, with its answer of up to 256 bytes.
  abbrev at_test : Bytes → Phone S → Option (Report × Phone S)
  at_test cmd w = do
    (ret, rsp, w') ← ls_api_send_at t cmd (chars (zeros 256)) w
    text ← text_of rsp
    some (answered text, w')

  unfoldable pub airplane_mode_test : Phone S → Option (List Report × Phone S)
  unfolding ls_api_send_at
  airplane_mode_test w = do
    (closing, w1) ← at_test (codes "AT+SFUN=5") w
    (opening, w2) ← at_test (codes "AT+SFUN=4") w1
    some (closing ∷ opening ∷ [], w2)

  abbrev send_to : Bytes → Phone S → Option (List Report × Phone S)
  send_to smsc w = do
    (ret, m, w') ← ls_api_sendsms t smsc message w
    some (answered smsc ∷ (if ltb_ℤ ret (pos 0) then sms_failed else sms_sent) ∷ [], w')

  unfoldable pub send_sms_test : Phone S → Option (List Report × Phone S)
  unfolding ls_api_get_smsc ls_api_sendsms
  send_sms_test w = do
    (ret, pdu, w') ← ls_api_get_smsc t (chars (zeros 50)) w
    let sent = (text_of pdu >>= λ smsc. send_to smsc w')
    if ltb_ℤ ret (pos 0) then some (smsc_failed ∷ [], w') else sent

  -- The reports and the client of the thread, which then sleeps for ever.
  unfoldable pub zb_dial_test1 : (ℕ → Bool) → ℕ → Phone S → Option (List Report × Phone S)
  unfolding register_client get_imsi_test get_sim_status_test
  zb_dial_test1 answers max_apps w = do
    w1 ← register_client answers true w
    (imsi, w2) ← get_imsi_test w1
    (status, w3) ← get_sim_status_test max_apps w2
    some (imsi ∷ status ∷ [], w3)

  -- The reports, the value and the client.
  unfoldable pub zib_dial_test :
      (ℕ → Bool) → ℕ → Bytes → Phone S → Option (List Report × ℤ × Phone S)
  unfolding register_client get_imsi_test get_sim_status_test dial_test de_register_client
  zib_dial_test answers max_apps number w = do
    w1 ← register_client answers true w
    (imsi, w2) ← get_imsi_test w1
    (status, w3) ← get_sim_status_test max_apps w2
    (dialing, ret, w4) ← dial_test number w3
    w5 ← de_register_client w4
    some (imsi ∷ status ∷ dialing ∷ [], ret, w5)
