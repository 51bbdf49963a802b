-- ===== src/Tests/Telephony.antt =====
-- The telephony modules at concrete inputs.
use multi_test.Prelude.{
  ℕ, zero, suc, ◌+◌, Bool, true, false, List, [], ◌∷◌, Option, none, some, ◌≡◌, refl, arith,
  replicate, take, if◌then◌else◌, ltb, ◌==◌,
}
use multi_test.Prelude.Int.{is_zero}
use multi_test.Telephony.Client.{find_service}
use multi_test.Telephony.Replies.{ril_on_request_complete}
use multi_test.Telephony.DialTest.{got_imsi, sim_status, dialed, zib_dial_test}
use multi_test.Telephony.Dialing.{zib_dial_test-once, zib_dial_test-no_service}
use multi_test.Prelude.Int.{ℤ, pos}
use multi_test.Prelude.Text.{Bytes, codes, c_str}
use multi_test.Prelude.Buffer.{zeros}
use multi_test.Telephony.Memory.{Reader, dial, answer, get_imsi, Statics, chars, RilCall}
use multi_test.Telephony.Pdu.{smsc_to_pdu}
use multi_test.Telephony.PduText.{read_pdu, smsc_to_pdu-read}
use multi_test.Telephony.Calls.{handle_get_current_call_list, handle_get_current_call_list-overflow}
use multi_test.Telephony.Client.{Phone, unused}
use multi_test.Telephony.Lifetime.{
  ClientMove, registers, ends, dies, unborn, live_through, client_moves, Agrees,
  client_moves-Agrees,
}
use multi_test.Telephony.Requests.{Item, int32, string16, Platform, ls_api_get_imsi}
use multi_test.Telephony.Silent.{ls_api_get_imsi-answer}
use multi_test.Telephony.Events.{
  ProcessThread, Message, Events, call_incoming, call_active, Turn, arrives, handles,
}

smsc_to_pdu-read_example :
    (pdu : Bytes) × (smsc_to_pdu (some (b'+' ∷ codes "8613800100500")) (zeros 50) (pos 50)
      ≡ some (pos 0, pdu))
    × (read_pdu (c_str pdu) ≡ codes "8613800100500")
smsc_to_pdu-read_example =
    smsc_to_pdu-read b'+' 50 50 (codes "8613800100500") (omega arith) (omega arith) (omega arith)

-- A Parcel as the list of what was written.
abbrev read_number : List Item → Option ℤ × List Item
read_number [] = (none, [])
read_number (int32 v ∷ p) = (some v, p)
read_number (string16 s ∷ p) = (none, string16 s ∷ p)

abbrev read_text : List Item → Option Bytes × List Item
read_text [] = (none, [])
read_text (int32 v ∷ p) = (none, int32 v ∷ p)
read_text (string16 s ∷ p) = (some s, p)

abbrev reader : Reader (List Item)
reader = record { read_int32 = read_number; read_string = read_text }

abbrev statics : Statics
statics = record {
  aid_ptr = zeros 100;
  app_label_ptr = zeros 100;
  number = zeros 50;
  name = zeros 50;
}

abbrev no_call : RilCall
no_call = record {
  state = pos 0;
  index = pos 0;
  toa = pos 0;
  is_mpty = pos 0;
  is_mt = pos 0;
  als = pos 0;
  is_voice = pos 0;
  is_voice_privacy = pos 0;
  has_number = false;
  number_presentation = pos 0;
  has_name = false;
  name_presentation = pos 0;
}

handle_get_current_call_list-overflow_example :
    handle_get_current_call_list reader 7 (int32 (pos 2) ∷ []) statics (replicate 7 no_call) ≡ none
handle_get_current_call_list-overflow_example =
    handle_get_current_call_list-overflow reader 7 2 (int32 (pos 2) ∷ []) [] statics
      (replicate 7 no_call) (omega arith) (omega arith) refl (omega arith)

-- The service is found at the third try.
abbrev answers : ℕ → Bool
answers zero = false
answers (suc k) = ltb k 8

-- A service that answers every request with an IMSI.
abbrev platform : Platform (List Item) ℕ
platform = record {
  reader = reader;
  data_size = λ items. 4;
  max_command_bytes = 8192;
  ril_max_calls = 7;
  request_of = λ id. get_imsi;
  transact = λ n request items.
      (n + 1, pos 0, int32 (pos 11) ∷ int32 (pos 0) ∷ string16 (codes "460001234567890") ∷ []);
}

abbrev idle_phone : Phone ℕ
idle_phone = unused statics 0

abbrev ready_phone : Phone ℕ
ready_phone = record idle_phone {
  m_instance = true;
  m_client_instance = true;
  live = true;
  is_serviceready = true;
}

ls_api_get_imsi-answer_example :
    (buf : Bytes) × (w' : Phone ℕ) × (ls_api_get_imsi platform (chars (zeros 16)) ready_phone
      ≡ some (pos 0, chars buf, w'))
    × (c_str buf ≡ take 15 (codes "460001234567890"))
ls_api_get_imsi-answer_example =
    ls_api_get_imsi-answer platform ready_phone (pos 11) (codes "460001234567890")
      (int32 (pos 0) ∷ string16 (codes "460001234567890") ∷ [])
      (string16 (codes "460001234567890") ∷ []) (omega arith) (refl, refl, refl) refl refl refl refl
      refl (omega arith) (omega arith)

-- A thread that takes its messages from a list, the last first.
abbrev take_last : List Message → Option (Message × List Message)
take_last [] = none
take_last (m ∷ q) = some (m, q)

abbrev stack : ProcessThread (List Message)
stack = record { send_message = λ m q. m ∷ q; next_message = take_last }

abbrev quiet : Events (List Message)
quiet = record { thread = some []; callbacks = true; called = [] }

abbrev turns : List (Turn (List Item))
turns =
    arrives call_incoming (string16 (codes "112") ∷ [])
    ∷ handles
    ∷ arrives call_active (int32 (pos 1) ∷ [])
    ∷ []

-- A service that tells an IMSI and does all else.
abbrev polite : Platform (List Item) ℕ
polite = record platform {
  request_of = λ id. if is_zero id then get_imsi else dial;
  transact = λ n request items. (
    n + 1,
    pos 0,
    (elim request [
      | get_imsi ↦ int32 (pos 0) ∷ int32 (pos 0) ∷ string16 (codes "460001234567890") ∷ []
      | _ ↦ int32 (pos 10) ∷ int32 (pos 0) ∷ []
    ]),
  );
}

-- The client behind a dial test.
abbrev dialled : Phone ℕ
dialled = record idle_phone {
  m_instance = true;
  m_client_instance = true;
  s_client_reg_called = true;
  has_callbacks = true;
  has_thread = true;
  is_serviceready = true;
  clients_added = 1;
  service = 3;
}

zib_dial_test-once_example : zib_dial_test polite answers 8 (codes "112") dialled ≡ none
unfolding zib_dial_test ril_on_request_complete
zib_dial_test-once_example =
    zib_dial_test-once polite answers answers 8 (codes "112") (codes "112") idle_phone dialled
      (got_imsi (codes "460001234567890") ∷ sim_status (pos 0) [] ∷ dialed ∷ []) (pos 0) refl

zib_dial_test-no_service_example :
    (w' : Phone ℕ) × (zib_dial_test polite (λ k. false) 8 (codes "112") idle_phone
      ≡ some (got_imsi [] ∷ sim_status (pos 0) [] ∷ dialed ∷ [], pos 0, w'))
unfolding find_service
zib_dial_test-no_service_example =
    zib_dial_test-no_service polite (λ k. false) 8 (codes "112") statics 0 refl (omega arith)
      (omega arith)

-- A client that finds the service at once, is connected again and ends, then one that is too much.
abbrev two_lives : List ClientMove
two_lives =
    registers (λ k. k == 10) true ∷ dies (λ k. k == 3) ∷ ends ∷ registers (λ k. true) false ∷ []

two_lives-used : live_through two_lives unborn ≡ none
unfolding find_service
two_lives-used = refl

client_moves-Agrees_example :
    Agrees (live_through two_lives unborn) (client_moves two_lives idle_phone)
client_moves-Agrees_example = client_moves-Agrees two_lives statics 0

-- A service that answers every request with the number of RIL_REQUEST_ANSWER.
abbrev answering : Platform (List Item) ℕ
answering = record platform {
  request_of = λ id. answer;
  transact = λ n request items. (n + 1, pos 0, int32 (pos 14) ∷ int32 (pos 0) ∷ []);
}
