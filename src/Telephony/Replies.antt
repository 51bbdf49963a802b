-- ===== src/Telephony/Replies.antt =====
-- `RIL_onRequestComplete` (tel_test/ls_telephony_util.cpp). None is a fault: an access behind an array
-- or through NULL, or a variable that is not initialised.
use multi_test.Prelude.{ℕ, ◌+◌, [], ◌∷◌, ◌++◌, Option, none, some, leb, if◌then◌else◌, length, take}
use multi_test.Prelude.Int.{is_zero, ℤ, pos}
use multi_test.Prelude.Text.{Bytes, c_str}
use multi_test.Prelude.Fault.{◌>>=◌, ◌>>◌, require}
use multi_test.Prelude.Buffer.{store_at, string_at, zeros}
use multi_test.Telephony.Pdu.{smsc_to_pdu}
use multi_test.Telephony.Memory.{
  Reader, RilRequest, get_sim_status, get_current_calls, dial, get_imsi, hangup, send_sms, answer,
  get_smsc_address, send_at, unknown_request, Statics, Memory, null, chars, card, calls,
}
use multi_test.Telephony.Sim.{handle_icc_card_status}
use multi_test.Telephony.Calls.{handle_get_current_call_list}

-- `char pdu_smsc[50]`
abbrev pub pdu_smsc_size : ℕ
pdu_smsc_size = 50

-- A copy to `result`.
abbrev pub store_memory : Memory → Bytes → Option Memory
store_memory null text = none
store_memory (chars buf) text = store_at buf 0 text >>= λ buf'. some (chars buf')
store_memory (card c) text = none
store_memory (calls cs) text = none

module _ {P : Type 0} (r : Reader P) (ril_max_calls : ℕ) where
  -- The cases of `RIL_onRequestComplete` without an error.
  unfoldable pub on_reply : RilRequest → P → Statics → Memory → Option (Memory × Statics)
  unfolding handle_icc_card_status handle_get_current_call_list
  on_reply get_sim_status p s (card c) = do
    (c', s') ← handle_icc_card_status r p s c
    some (card c', s')
  on_reply get_sim_status p s m = none
  on_reply get_current_calls p s (calls cs) = do
    (cs', s') ← handle_get_current_call_list r ril_max_calls p s cs
    some (calls cs', s')
  on_reply get_current_calls p s m = none
  on_reply get_imsi p s m = elim (r.read_string p).0 [
    | none ↦ some (m, s)
    | some imsi ↦ do
      require (leb 15 (length imsi + 1))
      m' ← store_memory m (take 15 (imsi ++ 0 ∷ []))
      some (m', s)
  ]
  on_reply get_smsc_address p s m = do
    (v, pdu) ← smsc_to_pdu (r.read_string p).0 (zeros pdu_smsc_size) (pos pdu_smsc_size)
    text ← string_at pdu 0
    m' ← store_memory m text
    some (m', s)
  on_reply send_at p s m = elim (r.read_string p).0 [
    | none ↦ some (m, s)
    | some text ↦ do m' ← store_memory m (c_str text); some (m', s)
  ]
  on_reply dial p s m = some (m, s)
  on_reply hangup p s m = some (m, s)
  on_reply send_sms p s m = some (m, s)
  on_reply answer p s m = some (m, s)
  on_reply unknown_request p s m = some (m, s)

  -- `request_of` reads the constants RIL_REQUEST_*. The numbers are not initialised if they cannot
  -- be read.
  unfoldable pub ril_on_request_complete :
      (ℤ → RilRequest) → P → Statics → Memory → Option (Memory × Statics)
  unfolding on_reply
  ril_on_request_complete request_of p s m = do
    let (id, p1) = r.read_int32 p
    let (err, p2) = r.read_int32 p1
    id' ← id
    err' ← err
    if is_zero err' then on_reply (request_of id') p2 s m else some (m, s)
