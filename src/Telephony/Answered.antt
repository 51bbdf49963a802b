-- ===== src/Telephony/Answered.antt =====
-- What the calls that come in do to the client (tel_test/zib_dial_test.cpp).
use multi_test.Prelude.{ℕ, zero, suc, false, [], some, ◌≡◌, ◌⊎◌}
use multi_test.Prelude.Int.{ℤ, is_zero}
use multi_test.Telephony.Memory.{answer}
use multi_test.Telephony.Requests.{Platform}
use multi_test.Telephony.Events.{Events}

-- The service behind that many requests to answer.
abbrev pub answered_by : {P S : Type 0} → Platform P S → ℕ → S → S
answered_by t zero s = s
answered_by t (suc k) s = answered_by t k (t.transact s answer []).0

-- Every request to answer is refused, or its reply can be read and is about that request.
abbrev pub IsSettled : {P S : Type 0} → Platform P S → Type 0
IsSettled {P} {S} t =
    (s : S)
    → let (s', status, reply) = t.transact s answer [] in
      (is_zero status ≡ false)
      ⊎ ((id err : ℤ) × (p1 p2 : P) × (t.reader.read_int32 reply ≡ (some id, p1))
          × (t.reader.read_int32 p1 ≡ (some err, p2))
          × (t.request_of id ≡ answer))
