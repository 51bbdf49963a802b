-- ===== src/Key/Protocol.antt =====
-- What holds of the reports of `input_keys_analyse` over every sequence of calls (key_app.cpp).
use multi_test.Prelude.{
  ℕ, Bool, true, false, ◌&&◌, not, List, [], ◌∷◌, ◌++◌, Option, none, some, ◌≡◌, ◌≢◌, refl, ◌∙◌,
  arith, ◌==◌, if◌then◌else◌,
}
use multi_test.Key.{
  KeyState, all_release, check_long_key_release, check_double_key_release, check_triple_key_release,
  TimeVal, KeyPressInfo, InputEvent, Gesture, single, double, triple, long, Report, timeval_diff,
}
use multi_test.Prelude.Int.{ℤ}
use multi_test.Key.Machine.{Outcome, input_keys_analyse, adopt, dispatch}

-- One call of `input_keys_analyse`: its arguments and the two clock readings.
pub record Call : Type 0 where
  pub success : Bool
  pub ev : InputEvent
  pub now : TimeVal
  pub later : TimeVal

unfoldable pub analyse : Call → KeyPressInfo → Outcome
analyse c k = input_keys_analyse c.success c.ev c.now c.later k

unfoldable pub analyse_all : List Call → KeyPressInfo → Outcome
analyse_all [] k = (k, [])
analyse_all (c ∷ cs) k =
    let (k', out) = analyse c k in let (k'', more) = analyse_all cs k' in (k'', out ++ more)

-- The gesture whose press has been reported and whose release has not.
abbrev pub held : KeyState → Option Gesture
held check_long_key_release = some long
held check_double_key_release = some double
held check_triple_key_release = some triple
held _ = none

abbrev pub Pending : Type 0
Pending = Option (Gesture × ℕ)

abbrev pub pending : KeyPressInfo → Pending
pending k = elim (held k.state) [ none ↦ none | some g ↦ some (g, k.code) ]

abbrev same_gesture : Gesture → Gesture → Bool
same_gesture single single = true
same_gesture double double = true
same_gesture triple triple = true
same_gesture long long = true
same_gesture _ _ = false

-- With nothing pending: a click that is over (single, double), or the press of a held gesture.
abbrev follow_free : Gesture → ℕ → Bool → Option Pending
follow_free single c false = some none
follow_free double c false = some none
follow_free double c true = some (some (double, c))
follow_free triple c true = some (some (triple, c))
follow_free long c true = some (some (long, c))
follow_free _ _ _ = none

-- With a press pending: only its own release.
abbrev follow_held : Gesture → ℕ → Report → Option Pending
follow_held g c r =
    if not r.is_press && same_gesture g r.gesture && c == r.code then some none else none

abbrev pub follow : Pending → Report → Option Pending
follow none r = follow_free r.gesture r.code r.is_press
follow (some (g, c)) r = follow_held g c r

-- The rules of the trace: `none` if a report breaks them, else what is pending behind the last.
abbrev pub follow_all : Pending → List Report → Option Pending
follow_all p [] = some p
follow_all p (r ∷ rs) = elim (follow p r) [ none ↦ none | some q ↦ follow_all q rs ]

-- A record with no key yet is idle.
abbrev pub IsStarted : KeyPressInfo → Type 0
IsStarted k = k.code ≡ 0 → k.state ≡ all_release

-- A successful poll brings a key, and none has the code 0 (KEY_RESERVED). A poll that timed out brings
-- nothing: what its buffer holds is free.
abbrev pub HasCode : Call → Type 0
HasCode c = c.success ≡ true → c.ev.code ≢ 0

abbrev pub HaveCodes : List Call → Type 0
HaveCodes [] = Unit
HaveCodes (c ∷ cs) = HasCode c × HaveCodes cs

dispatch-pending :
    (s : KeyState) (success : Bool) (ev : InputEvent) (e : ℤ) (later : TimeVal) (k : KeyPressInfo)
    → k.state ≡ s
    → let r = dispatch s success ev e later k in follow_all (pending k) r.1 ≡ some (pending r.0)
unfolding dispatch
dispatch-pending all_release success ev e later k h = ground arith
dispatch-pending _ success ev e later k h = ground arith

adopt-pending :
    (success : Bool) (ev : InputEvent) (k : KeyPressInfo)
    → IsStarted k
    → pending (adopt success ev k) ≡ pending k
unfolding adopt
adopt-pending success ev k s = ground arith

analyse-pending :
    (c : Call) (k : KeyPressInfo)
    → IsStarted k
    → follow_all (pending k) (analyse c k).1 ≡ some (pending (analyse c k).0)
unfolding analyse input_keys_analyse
analyse-pending c k s =
    let k1 : KeyPressInfo = record k { end_time = c.now } in
    let k2 : KeyPressInfo = adopt c.success c.ev k1 in
    cc (
      dispatch-pending k2.state c.success c.ev (timeval_diff c.now k.start_time) c.later k2 refl,
      adopt-pending c.success c.ev k1 s,
    )

analyse-IsStarted :
    (c : Call) (k : KeyPressInfo) → HasCode c → IsStarted k → IsStarted (analyse c k).0
unfolding analyse input_keys_analyse
analyse-IsStarted c k h s = ground arith

-- One report, then the rest: the recursive case of the lemma below, by cases on its outcome.
follow_all-step :
    (o : Option Pending) (xs ys : List Report) {q : Pending}
    → ((p : Pending) → follow_all p xs ≡ some q → follow_all p (xs ++ ys) ≡ follow_all q ys)
    → elim o [ none ↦ none | some p ↦ follow_all p xs ] ≡ some q
    → elim o [ none ↦ none | some p ↦ follow_all p (xs ++ ys) ] ≡ follow_all q ys
follow_all-step none xs ys ih h = cc
follow_all-step (some p) xs ys ih h = ih p h

follow_all-append :
    (p : Pending) (xs ys : List Report) {q : Pending}
    → follow_all p xs ≡ some q
    → follow_all p (xs ++ ys) ≡ follow_all q ys
follow_all-append p [] ys h = ground arith
follow_all-append p (x ∷ xs) ys h =
    follow_all-step (follow p x) xs ys (λ p'. follow_all-append p' xs ys) h

-- From a record that is idle while it has no key, every sequence of calls in which a successful poll
-- brings a key with a code other than 0 keeps the rules of the trace: a press of a held gesture is reported
-- only when nothing is pending, is followed by the release of the same gesture of the same key before any
-- other report, and what is pending at the end is what the state says. What the buffer of a poll that timed
-- out holds is free.
pub analyse_all-pending :
    (cs : List Call) (k : KeyPressInfo)
    → HaveCodes cs
    → IsStarted k
    → follow_all (pending k) (analyse_all cs k).1 ≡ some (pending (analyse_all cs k).0)
unfolding analyse_all
analyse_all-pending [] k h s = refl
analyse_all-pending (c ∷ cs) k h s =
    follow_all-append (pending k) (analyse c k).1 _ (analyse-pending c k s)
    ∙ analyse_all-pending cs (analyse c k).0 h.1 (analyse-IsStarted c k h.0 s)
