-- ===== src/Telephony/Calls.antt =====
-- `handleGetCurrentCallList` (tel_test/ls_telephony_util.cpp). None is a fault: an access behind an
-- array, or a variable that is not initialised.
use multi_test.Prelude.{
  ℕ, zero, suc, ◌+◌, ◌*◌, true, List, Option, none, some, length, get_elem?, set, ◌≤◌, ◌≡◌, ◌-◌,
  arith, get_elem?-length_le, length-set, Option-cases, inl, inr,
}
use Prim.Native.Nat.{min}
use multi_test.Prelude.Int.{pos, pos_part}
use multi_test.Prelude.Fault.{◌>>=◌}
use multi_test.Telephony.Memory.{Reader, RilCall, Statics, or_old, clear_and_copy}

module _ {P : Type 0} (r : Reader P) where
  -- One round of `handleGetCurrentCallList`. (The last number is read and dropped.)
  unfoldable pub read_call : P → Statics → RilCall → Option (P × Statics × RilCall)
  read_call p s c = do
    let (state, p1) = r.read_int32 p
    let (index, p2) = r.read_int32 p1
    let (toa, p3) = r.read_int32 p2
    let (is_mpty, p4) = r.read_int32 p3
    let (is_mt, p5) = r.read_int32 p4
    let (als, p6) = r.read_int32 p5
    let (is_voice, p7) = r.read_int32 p6
    let (privacy, p8) = r.read_int32 p7
    let (number_text, p9) = r.read_string p8
    number ← clear_and_copy s.number number_text
    let (number_presentation, p10) = r.read_int32 p9
    let (name_text, p11) = r.read_string p10
    name ← clear_and_copy s.name name_text
    let (name_presentation, p12) = r.read_int32 p11
    let (unused, p13) = r.read_int32 p12
    state' ← state
    some (
      p13,
      record s { number = number; name = name },
      record {
        state = state';
        index = or_old c.index index;
        toa = or_old c.toa toa;
        is_mpty = or_old c.is_mpty is_mpty;
        is_mt = or_old c.is_mt is_mt;
        als = or_old c.als als;
        is_voice = or_old c.is_voice is_voice;
        is_voice_privacy = or_old c.is_voice_privacy privacy;
        has_number = true;
        number_presentation = or_old c.number_presentation number_presentation;
        has_name = true;
        name_presentation = or_old c.name_presentation name_presentation;
      },
    )

  module _ (ril_max_calls : ℕ) where
    -- The loop from round `i` on, by the rounds left. The list is declared as a pointer to arrays of
    -- `ril_max_calls` calls, so round `i` works on entry `i * ril_max_calls`.
    unfoldable pub read_calls : ℕ → ℕ → P → Statics → List RilCall → Option (List RilCall × Statics)
    unfolding read_call
    read_calls zero i p s cs = some (cs, s)
    read_calls (suc n) i p s cs = do
      c ← get_elem? cs (i * ril_max_calls)
      (p', s', c') ← read_call p s c
      read_calls n (i + 1) p' s' (set cs (i * ril_max_calls) c')

    -- An unread count is a variable that is not initialised.
    unfoldable pub handle_get_current_call_list :
        P → Statics → List RilCall → Option (List RilCall × Statics)
    unfolding read_calls
    handle_get_current_call_list p s cs = do
      let (num, p') = r.read_int32 p
      n ← num
      read_calls (min (pos_part n) ril_max_calls) 0 p' s cs

-- From round 1 on the entries are behind a list of `ril_max_calls` calls.
read_calls-overflow :
    {P : Type 0} (r : Reader P) (max n : ℕ) (p : P) (s : Statics) (cs : List RilCall)
    → length cs ≤ max
    → read_calls r max (suc n) 1 p s cs ≡ none
unfolding read_calls
read_calls-overflow r max n p s cs h =
    let e : length cs ≤ 1 * max = omega arith in ground (arith, get_elem?-length_le cs (1 * max) e)

read_calls-first :
    {P : Type 0} (r : Reader P) (max n : ℕ) (p : P) (s : Statics) (cs : List RilCall)
    → ((p' : P) (s' : Statics) (cs' : List RilCall)
        → length cs' ≤ max
        → read_calls r max n 1 p' s' cs' ≡ none)
    → length cs ≤ max
    → read_calls r max (suc n) 0 p s cs ≡ none
unfolding read_calls
read_calls-first r max n p s cs fails h = elim (Option-cases (get_elem? cs (0 * max))) [
  | inl e ↦ ground arith
  | inr (c, e) ↦ elim (Option-cases (read_call r p s c)) [
    | inl f ↦ ground arith
    | inr ((p', s', c'), f) ↦
        let fit = length-set cs (0 * max) c' in
        ground (arith, fails p' s' (set cs (0 * max) c') (omega (arith, fit)))
  ]
]

-- A list of `ril_max_calls` calls has no room for the second call of a reply: reading two calls or more
-- is a fault.
pub handle_get_current_call_list-overflow :
    {P : Type 0} (r : Reader P) (ril_max_calls n : ℕ) (p p' : P) (s : Statics) (cs : List RilCall)
    → 2 ≤ ril_max_calls
    → length cs ≤ ril_max_calls
    → r.read_int32 p ≡ (some (pos n), p')
    → 2 ≤ n
    → handle_get_current_call_list r ril_max_calls p s cs ≡ none
unfolding handle_get_current_call_list
handle_get_current_call_list-overflow r max n p p' s cs two len e h =
    let k : ℕ = min n max - 2 in
    let rounds : min n max ≡ suc (suc k) = omega arith in
    rw (e, rounds)
      (read_calls-first r max (suc k) p' s cs
        (λ p'' s'' cs'. read_calls-overflow r max k p'' s'' cs') len)
