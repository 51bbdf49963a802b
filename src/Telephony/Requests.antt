-- ===== src/Telephony/Requests.antt =====
-- Requests: `sendTransact` (tel_test/AppClient.cpp), `sendRequest` and the ls_api functions
-- (tel_test/ls_telephony_util.cpp). None is a fault.
use multi_test.Prelude.{ℕ, not, List, [], ◌∷◌, Option, some, if◌then◌else◌, ltb}
use multi_test.Prelude.Int.{is_zero, ℤ, pos, negsuc, ltb_ℤ}
use multi_test.Prelude.Text.{Bytes}
use multi_test.Prelude.Fault.{◌>>=◌, ◌>>◌, require}
use multi_test.Telephony.Memory.{
  Reader, RilRequest, get_sim_status, get_current_calls, dial, get_imsi, hangup, send_sms, answer,
  get_smsc_address, send_at, Memory, null,
}
use multi_test.Telephony.Replies.{ril_on_request_complete}
use multi_test.Telephony.Client.{Phone}

-- What a request's Parcel is written from: `writeInt32` and `writeString16`.
pub data Item : Type 0 where
  int32 : ℤ → Item
  string16 : Bytes → Item

-- What the code uses of the platform: reading and the size of a Parcel, the constants
-- MAX_COMMAND_BYTES, RIL_MAX_CALLS and RIL_REQUEST_*, and `transact` with its status and reply.
pub record Platform (P S : Type 0) : Type 0 where
  pub reader : Reader P
  pub data_size : List Item → ℕ
  pub max_command_bytes : ℕ
  pub ril_max_calls : ℕ
  pub request_of : ℤ → RilRequest
  pub transact : S → RilRequest → List Item → S × ℤ × P

module _ {P S : Type 0} (t : Platform P S) where
  unfoldable pub send_transact :
      RilRequest → List Item → Memory → Phone S → Option (Memory × Phone S)
  send_transact request items result w =
      let (service, status, reply) = t.transact w.service request items in
      if not w.is_serviceready
      then some (result, w)
      else if is_zero status
      then (ril_on_request_complete t.reader t.ril_max_calls t.request_of reply w.statics result
          >>= λ (result', statics).
              some (result', record w { service = service; statics = statics }))
      else some (result, record w { service = service })

  -- The value, what `result` points to, and the client.
  unfoldable pub send_request :
      RilRequest → List Item → Memory → Phone S → Option (ℤ × Memory × Phone S)
  unfolding send_transact
  send_request request items result w =
      if ltb t.max_command_bytes (t.data_size items)
      then some (negsuc 0, result, w)
      else if w.m_client_instance
      then (require w.live
          >> (send_transact request items result w >>= λ (result', w'). some (pos 0, result', w')))
      else some (pos 0, result, w)

  -- Behind the request, in each of the functions below.
  abbrev pub to_status : ℤ × Memory × Phone S → Option (ℤ × Memory × Phone S)
  to_status (ret, result, w) =
      if ltb_ℤ ret (pos 0) then some (negsuc 0, result, w) else some (pos 0, result, w)

  -- A request without data.
  unfoldable pub ls_api_plain : RilRequest → Memory → Phone S → Option (ℤ × Memory × Phone S)
  unfolding send_request
  ls_api_plain request result w = send_request request [] result w >>= to_status

  unfoldable pub ls_api_get_imsi : Memory → Phone S → Option (ℤ × Memory × Phone S)
  unfolding ls_api_plain
  ls_api_get_imsi imsi w = ls_api_plain get_imsi imsi w

  unfoldable pub ls_api_get_sim_status : Memory → Phone S → Option (ℤ × Memory × Phone S)
  unfolding ls_api_plain
  ls_api_get_sim_status status w = ls_api_plain get_sim_status status w

  unfoldable pub ls_api_send_at : Bytes → Memory → Phone S → Option (ℤ × Memory × Phone S)
  unfolding send_request
  ls_api_send_at cmd rsp w = send_request send_at (string16 cmd ∷ []) rsp w >>= to_status

  unfoldable pub ls_api_get_smsc : Memory → Phone S → Option (ℤ × Memory × Phone S)
  unfolding ls_api_plain
  ls_api_get_smsc smsc w = ls_api_plain get_smsc_address smsc w

  unfoldable pub ls_api_sendsms : Bytes → Bytes → Phone S → Option (ℤ × Memory × Phone S)
  unfolding send_request
  ls_api_sendsms smsc content w =
      send_request send_sms (int32 (pos 2) ∷ string16 smsc ∷ string16 content ∷ []) null w
      >>= to_status

  unfoldable pub ls_api_dial : Bytes → Phone S → Option (ℤ × Memory × Phone S)
  unfolding send_request
  ls_api_dial number w =
      send_request dial (string16 number ∷ int32 (pos 0) ∷ int32 (pos 0) ∷ []) null w >>= to_status

  unfoldable pub ls_api_get_current_calls : Memory → Phone S → Option (ℤ × Memory × Phone S)
  unfolding ls_api_plain
  ls_api_get_current_calls current w = ls_api_plain get_current_calls current w

  unfoldable pub ls_api_accept_call : Phone S → Option (ℤ × Memory × Phone S)
  unfolding ls_api_plain
  ls_api_accept_call w = ls_api_plain answer null w

  unfoldable pub ls_api_hangup_connection : ℤ → Phone S → Option (ℤ × Memory × Phone S)
  unfolding send_request
  ls_api_hangup_connection index w =
      send_request hangup (int32 (pos 1) ∷ int32 index ∷ []) null w >>= to_status
