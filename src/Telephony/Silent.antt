-- ===== src/Telephony/Silent.antt =====
-- What the value of a request tells (tel_test/ls_telephony_util.cpp).
use multi_test.Prelude.{
  ℕ, ◌≤◌, true, false, List, [], ◌∷◌, ◌++◌, some, ◌≡◌, ◌⊎◌, arith, Bool-cases, inl, inr, refl,
  length, take, drop, ap, length-take, length-append, take-append_le,
}
use multi_test.Prelude.Int.{is_zero, ℤ, pos}
use multi_test.Prelude.Text.{Bytes, c_str}
use multi_test.Prelude.Buffer.{IsText, zeros, store_at-append, c_str-append, take-IsText}
use multi_test.Telephony.Memory.{Reader, Statics, RilRequest, get_imsi, Memory, chars}
use multi_test.Telephony.Replies.{store_memory, on_reply, ril_on_request_complete}
use multi_test.Telephony.Client.{Phone}
use multi_test.Telephony.Requests.{Item, Platform, send_request, ls_api_get_imsi}

-- No client is registered, or the service is not there, or it refuses.
abbrev pub IsUnanswered : {P S : Type 0} → Platform P S → RilRequest → List Item → Phone S → Type 0
IsUnanswered t request items w =
    (w.m_client_instance ≡ false)
    ⊎ ((w.live ≡ true)
        × ((w.is_serviceready ≡ false) ⊎ (is_zero (t.transact w.service request items).1 ≡ false)))

stored_imsi :
    (imsi : Bytes)
    → 15 ≤ length imsi
    → store_memory (chars (zeros 16)) (take 15 (imsi ++ 0 ∷ []))
      ≡ some (chars (take 15 imsi ++ 0 ∷ []))
stored_imsi imsi h =
    let cut = length-take 15 imsi in
    let n : length (take 15 imsi) ≡ 15 = omega (arith, cut) in
    let store = store_at-append [] (take 15 imsi) (zeros 16) 0 refl (omega (arith, n)) in
    rw (take-append_le 15 imsi (0 ∷ []) h) (ground (arith, store, ap (λ k. drop k (zeros 16)) n))

imsi_reply :
    {P : Type 0} (r : Reader P) (max : ℕ) (p : P) (s : Statics) (imsi : Bytes)
    → (r.read_string p).0 ≡ some imsi
    → 15 ≤ length imsi
    → on_reply r max get_imsi p s (chars (zeros 16)) ≡ some (chars (take 15 imsi ++ 0 ∷ []), s)
unfolding on_reply
imsi_reply r max p s imsi e h =
    rw (e, on_reply) (ground (arith, stored_imsi imsi h, length-append imsi (0 ∷ [])))

module _ {P S : Type 0} (t : Platform P S) where
  transacted_imsi :
      (w : Phone S) (id : ℤ) (imsi : Bytes) (reply p1 p2 : P)
      → t.reader.read_int32 reply ≡ (some id, p1)
      → t.request_of id ≡ get_imsi
      → t.reader.read_int32 p1 ≡ (some (pos 0), p2)
      → (t.reader.read_string p2).0 ≡ some imsi
      → 15 ≤ length imsi
      → ril_on_request_complete t.reader t.ril_max_calls t.request_of reply w.statics
          (chars (zeros 16))
        ≡ some (chars (take 15 imsi ++ 0 ∷ []), w.statics)
  unfolding ril_on_request_complete
  transacted_imsi w id imsi reply p1 p2 rid rq rerr rtext long =
      rw (rid, rerr, rq) (imsi_reply t.reader t.ril_max_calls p2 w.statics imsi rtext long)

  -- A request that nobody answers gives 0, as an answered one does, and leaves the result as it was.
  send_request-unanswered :
      (request : RilRequest) (items : List Item) (result : Memory) (w : Phone S)
      → t.data_size items ≤ t.max_command_bytes
      → IsUnanswered t request items w
      → (w' : Phone S) × (send_request t request items result w ≡ some (pos 0, result, w'))
  unfolding send_request
  send_request-unanswered request items result w h (inl e) = (w, ground arith)
  send_request-unanswered request items result w h (inr (l, inl e)) = (w, ground arith)
  send_request-unanswered request items result w h (inr (l, inr e)) =
      elim (Bool-cases w.m_client_instance) [
        | inl c ↦ elim (Bool-cases w.is_serviceready) [
          | inl b ↦ (record w { service = (t.transact w.service request items).0 }, ground arith)
          | inr b ↦ (w, ground arith)
        ]
        | inr c ↦ (w, ground arith)
      ]

  -- An IMSI of 15 bytes or more that the service sends stands in the caller's array, cut to 15.
  pub ls_api_get_imsi-answer :
      (w : Phone S) (id : ℤ) (imsi : Bytes) (p1 p2 : P)
      → let reply = (t.transact w.service get_imsi []).2 in
        t.data_size [] ≤ t.max_command_bytes
        → (w.m_client_instance ≡ true) × (w.live ≡ true) × (w.is_serviceready ≡ true)
        → is_zero (t.transact w.service get_imsi []).1 ≡ true
        → t.reader.read_int32 reply ≡ (some id, p1)
        → t.request_of id ≡ get_imsi
        → t.reader.read_int32 p1 ≡ (some (pos 0), p2)
        → (t.reader.read_string p2).0 ≡ some imsi
        → 15 ≤ length imsi
        → IsText imsi
        → (buf : Bytes) × (w' : Phone S) × (ls_api_get_imsi t (chars (zeros 16)) w
            ≡ some (pos 0, chars buf, w'))
          × (c_str buf ≡ take 15 imsi)
  unfolding ls_api_get_imsi
  ls_api_get_imsi-answer w id imsi p1 p2 size ready status rid rq rerr rtext long text =
      let reply = (t.transact w.service get_imsi []).2 in
      (
        take 15 imsi ++ 0 ∷ [],
        record w { service = (t.transact w.service get_imsi []).0 },
        ground (arith, transacted_imsi w id imsi reply p1 p2 rid rq rerr rtext long),
        c_str-append (take 15 imsi) [] (take-IsText 15 imsi text),
      )
