-- ===== src/Key/Gestures.antt =====
-- What a user's presses are reported as, and when (key_app.cpp).
use multi_test.Prelude.{
  ℕ, ◌≤◌, ◌<◌, ◌+◌, ◌*◌, Bool, true, false, List, [], ◌∷◌, ◌≡◌, ◌≢◌, arith, refl, ◌∙◌, ap,
}
use multi_test.Key.{
  KeyState, first_press, first_release, second_press, second_release, triple_press, triple_release,
  check_long_key_release, all_release, TimeVal, KeyPressInfo, InputEvent, Gesture, single, double,
  triple, long, Report, key_click_gap, key_long_press_time, key_press, key_release, timeval_diff,
}
use multi_test.Key.Machine.{reached, input_keys_analyse}
use multi_test.Key.Protocol.{Call, analyse, analyse_all}

-- A successful poll that delivers a press or a release of key `c`, at a time.
abbrev pub key_event : ℕ → ℕ → TimeVal → Call
key_event c v t = record {
  success = true;
  ev = record { type = 1; code = c; value = v };
  now = t;
  later = t;
}

-- A poll that timed out; `stale` is what the event buffer happens to hold.
abbrev pub timeout : InputEvent → TimeVal → Call
timeout stale t = record { success = false; ev = stale; now = t; later = t }

abbrev pub report : Gesture → ℕ → Bool → Report
report g c p = record { gesture = g; code = c; is_press = p }

-- elapsed >= limit, as an order between the two readings in microseconds.
abbrev pub micros : TimeVal → ℕ
micros t = t.tv_sec * 1000000 + t.tv_usec

reached-micros :
    (limit : ℕ) (a b : TimeVal)
    → (reached limit (timeval_diff b a) ≡ true → micros a + limit ≤ micros b)
      × (reached limit (timeval_diff b a) ≡ false → micros b < micros a + limit)
unfolding timeval_diff
reached-micros limit a b = ground arith

reached_of_le :
    (limit : ℕ) (a b : TimeVal)
    → micros a + limit ≤ micros b
    → reached limit (timeval_diff b a) ≡ true
reached_of_le limit a b h = ground (arith, reached-micros limit a b)

reached_of_lt :
    (limit : ℕ) (a b : TimeVal)
    → micros b < micros a + limit
    → reached limit (timeval_diff b a) ≡ false
reached_of_lt limit a b h = ground (arith, reached-micros limit a b)

-- A press and a release of an idle listener's key with at least the click gap between them is
-- reported as one single click, and leaves the listener idle.
analyse_all-slow_click :
    (k : KeyPressInfo) (c : ℕ) (t u : TimeVal)
    → k.state ≡ all_release
    → k.code ≢ 0
    → micros t + key_click_gap ≤ micros u
    → let r = analyse_all (key_event c key_press t ∷ key_event c key_release u ∷ []) k in
      (r.1 ≡ report single c false ∷ []) × (r.0.state ≡ all_release)
unfolding analyse_all analyse input_keys_analyse
analyse_all-slow_click k c t u s n h = ground (arith, reached_of_le key_click_gap t u h)

-- A poll at `u` that times out changes nothing in a state that has been entered at `t`.
abbrev Stays : KeyState → TimeVal → TimeVal → Type 0
Stays first_press t u = micros u < micros t + key_long_press_time
Stays first_release t u = micros u < micros t + key_click_gap
Stays second_press t u = micros u < micros t + key_click_gap
Stays second_release t u = micros u < micros t + key_click_gap
Stays triple_press t u = ⊥
Stays triple_release t u = ⊥
Stays _ t u = Unit

abbrev AllStay : KeyState → TimeVal → List TimeVal → Type 0
AllStay s t [] = Unit
AllStay s t (u ∷ us) = Stays s t u × AllStay s t us

-- Polls that time out, then the rest.
abbrev pub timeouts : InputEvent → List TimeVal → List Call → List Call
timeouts stale [] cs = cs
timeouts stale (u ∷ us) cs = timeout stale u ∷ timeouts stale us cs

analyse-timeout-Stays :
    (s : KeyState) (k : KeyPressInfo) (stale : InputEvent) (u : TimeVal)
    → k.state ≡ s
    → Stays s k.start_time u
    → analyse (timeout stale u) k ≡ (record k { end_time = u }, [])
unfolding analyse input_keys_analyse
analyse-timeout-Stays all_release k stale u e h = ground arith
analyse-timeout-Stays first_press k stale u e h =
    ground (arith, reached_of_lt key_long_press_time k.start_time u h)
analyse-timeout-Stays first_release k stale u e h =
    ground (arith, reached_of_lt key_click_gap k.start_time u h)
analyse-timeout-Stays second_press k stale u e h =
    ground (arith, reached_of_lt key_click_gap k.start_time u h)
analyse-timeout-Stays second_release k stale u e h =
    ground (arith, reached_of_lt key_click_gap k.start_time u h)
analyse-timeout-Stays triple_press k stale u e h = absurd h
analyse-timeout-Stays triple_release k stale u e h = absurd h
analyse-timeout-Stays _ k stale u e h = ground arith

-- A call that reports nothing, then the rest.
analyse_all-silent :
    (c : Call) (cs : List Call) (k k' : KeyPressInfo)
    → analyse c k ≡ (k', [])
    → analyse_all (c ∷ cs) k ≡ analyse_all cs k'
unfolding analyse_all
analyse_all-silent c cs k k' e = rw e refl

analyse_all-timeouts :
    (us : List TimeVal) (cs : List Call) (k : KeyPressInfo) (stale : InputEvent)
    → AllStay k.state k.start_time us
    → (z : TimeVal) × (analyse_all (timeouts stale us cs) k
        ≡ analyse_all cs (record k { end_time = z }))
analyse_all-timeouts [] cs k stale h = (k.end_time, refl)
analyse_all-timeouts (u ∷ us) cs k stale h =
    let k' : KeyPressInfo = record k { end_time = u } in
    let (z, e) = analyse_all-timeouts us cs k' stale h.1 in
    (
      z,
      analyse_all-silent (timeout stale u) (timeouts stale us cs) k k'
            (analyse-timeout-Stays k.state k stale u refl h.0)
          ∙ e,
    )

-- A silent call, then polls that time out, then the rest.
analyse_all-wait :
    (c : Call) (us : List TimeVal) (cs : List Call) (k k' : KeyPressInfo) (stale : InputEvent)
    → analyse c k ≡ (k', [])
    → AllStay k'.state k'.start_time us
    → (z : TimeVal) × (analyse_all (c ∷ timeouts stale us cs) k
        ≡ analyse_all cs (record k' { end_time = z }))
analyse_all-wait c us cs k k' stale e h =
    let (z, r) = analyse_all-timeouts us cs k' stale h in
    (z, analyse_all-silent c (timeouts stale us cs) k k' e ∙ r)

-- The record in a state entered at `t` for key `c`.
abbrev entered : KeyState → ℕ → TimeVal → TimeVal → KeyPressInfo → KeyPressInfo
entered s c t z k = record k { state = s; code = c; start_time = t; end_time = z }

press-first :
    (k : KeyPressInfo) (c : ℕ) (t : TimeVal)
    → k.state ≡ all_release
    → k.code ≢ 0
    → analyse (key_event c key_press t) k ≡ (entered first_press c t t k, [])
unfolding analyse input_keys_analyse
press-first k c t s n = ground arith

release-first :
    (k : KeyPressInfo) (c : ℕ) (t z u : TimeVal)
    → c ≢ 0
    → micros u < micros t + key_click_gap
    → analyse (key_event c key_release u) (entered first_press c t z k)
      ≡ (entered first_release c u u k, [])
unfolding analyse input_keys_analyse
release-first k c t z u n h = ground (arith, reached_of_lt key_click_gap t u h)

press-second :
    (k : KeyPressInfo) (c : ℕ) (u z v : TimeVal)
    → c ≢ 0
    → analyse (key_event c key_press v) (entered first_release c u z k)
      ≡ (entered second_press c v v k, [])
unfolding analyse input_keys_analyse
press-second k c u z v n = ground arith

release-second :
    (k : KeyPressInfo) (c : ℕ) (v z w : TimeVal)
    → c ≢ 0
    → analyse (key_event c key_release w) (entered second_press c v z k)
      ≡ (entered second_release c w w k, [])
unfolding analyse input_keys_analyse
release-second k c v z w n = ground arith

timeout-double :
    (k : KeyPressInfo) (c : ℕ) (w z x : TimeVal) (stale : InputEvent)
    → micros w + key_click_gap ≤ micros x
    → let r = analyse_all (timeout stale x ∷ []) (entered second_release c w z k) in
      (r.1 ≡ report double c false ∷ []) × (r.0.state ≡ all_release)
unfolding analyse_all analyse input_keys_analyse
timeout-double k c w z x stale g = ground (arith, reached_of_le key_click_gap w x g)

-- Two clicks of one key, of a listener that has had a key before, are reported as one double click and
-- nothing else, once a poll times out with the click gap passed since the second release. The first click
-- is faster than the gap; between the events any number of polls time out, each before the time that the
-- state behind the last event waits for.
pub analyse_all-double_click :
    (k : KeyPressInfo) (c : ℕ) (t u v w x : TimeVal) (ts us vs ws : List TimeVal)
    (stale : InputEvent)
    → k.state ≡ all_release
    → k.code ≢ 0
    → c ≢ 0
    → micros u < micros t + key_click_gap
    → AllStay first_press t ts
    → AllStay first_release u us
    → AllStay second_press v vs
    → AllStay second_release w ws
    → micros w + key_click_gap ≤ micros x
    → let r =
        analyse_all
          (key_event c key_press t
            ∷ timeouts stale ts (
                key_event c key_release u
                ∷ timeouts stale us (
                    key_event c key_press v
                    ∷ timeouts stale vs
                        (key_event c key_release w ∷ timeouts stale ws (timeout stale x ∷ [])))))
          k in
      (r.1 ≡ report double c false ∷ []) × (r.0.state ≡ all_release)
analyse_all-double_click k c t u v w x ts us vs ws stale s n m h a1 a2 a3 a4 g =
    let (z1, e1) =
      analyse_all-wait (key_event c key_press t) ts _ k (entered first_press c t t k) stale
        (press-first k c t s n) a1 in
    let (z2, e2) =
      analyse_all-wait (key_event c key_release u) us _ (entered first_press c t z1 k)
        (entered first_release c u u k) stale (release-first k c t z1 u m h) a2 in
    let (z3, e3) =
      analyse_all-wait (key_event c key_press v) vs _ (entered first_release c u z2 k)
        (entered second_press c v v k) stale (press-second k c u z2 v m) a3 in
    let (z4, e4) =
      analyse_all-wait (key_event c key_release w) ws (timeout stale x ∷ [])
        (entered second_press c v z3 k) (entered second_release c w w k) stale
        (release-second k c v z3 w m) a4 in
    rw (e1 ∙ e2 ∙ e3 ∙ e4) (timeout-double k c w z4 x stale g)

-- After two fast clicks a further press is a triple press, whatever the pauses before it, and its
-- release the triple release.
analyse_all-triple_click :
    (k : KeyPressInfo) (c : ℕ) (t u v w x y : TimeVal)
    → k.state ≡ all_release
    → k.code ≢ 0
    → c ≢ 0
    → micros u < micros t + key_click_gap
    → let r =
        analyse_all
          (key_event c key_press t
            ∷ key_event c key_release u
            ∷ key_event c key_press v
            ∷ key_event c key_release w
            ∷ key_event c key_press x
            ∷ key_event c key_release y
            ∷ [])
          k in
      (r.1 ≡ report triple c true ∷ report triple c false ∷ []) × (r.0.state ≡ all_release)
unfolding analyse_all analyse input_keys_analyse
analyse_all-triple_click k c t u v w x y s n m h = ground (arith, reached_of_lt key_click_gap t u h)

timeout-long :
    (k : KeyPressInfo) (c : ℕ) (t z v : TimeVal) (cs : List Call) (stale : InputEvent)
    → micros t + key_long_press_time ≤ micros v
    → let r = analyse_all cs (entered check_long_key_release c t v k) in
      analyse_all (timeout stale v ∷ cs) (entered first_press c t z k)
      ≡ (r.0, report long c true ∷ r.1)
unfolding analyse_all analyse input_keys_analyse
timeout-long k c t z v cs stale g = ground (arith, reached_of_le key_long_press_time t v g)

release-long :
    (k : KeyPressInfo) (c : ℕ) (t z w : TimeVal)
    → c ≢ 0
    → let r =
        analyse_all (key_event c key_release w ∷ []) (entered check_long_key_release c t z k) in
      (r.1 ≡ report long c false ∷ []) × (r.0.state ≡ all_release)
unfolding analyse_all analyse input_keys_analyse
release-long k c t z w m = ground arith

AllStay-check : (t : TimeVal) (us : List TimeVal) → AllStay check_long_key_release t us
AllStay-check t [] = tt
AllStay-check t (u ∷ us) = (tt, AllStay-check t us)

-- A key held down, of a listener that has had a key before: nothing is reported by any number of polls that
-- time out before the long-press time, the long press by the first at or after it, nothing by those behind
-- it, and the long release when the key comes up.
pub analyse_all-long_press :
    (k : KeyPressInfo) (c : ℕ) (t v w : TimeVal) (us vs : List TimeVal) (stale : InputEvent)
    → k.state ≡ all_release
    → k.code ≢ 0
    → c ≢ 0
    → AllStay first_press t us
    → micros t + key_long_press_time ≤ micros v
    → let r =
        analyse_all
          (key_event c key_press t
            ∷ timeouts stale us
                (timeout stale v ∷ timeouts stale vs (key_event c key_release w ∷ [])))
          k in
      (r.1 ≡ report long c true ∷ report long c false ∷ []) × (r.0.state ≡ all_release)
analyse_all-long_press k c t v w us vs stale s n m h g =
    let up = key_event c key_release w ∷ [] in
    let (z1, e1) =
      analyse_all-wait (key_event c key_press t) us (timeout stale v ∷ timeouts stale vs up) k
        (entered first_press c t t k) stale (press-first k c t s n) h in
    let (z2, e2) =
      analyse_all-timeouts vs up (entered check_long_key_release c t v k) stale
        (AllStay-check t vs) in
    let (r1, r2) = release-long k c t z2 w m in
    rw (e1 ∙ timeout-long k c t z1 v (timeouts stale vs up) stale g, e2)
      (ap (λ l. report long c true ∷ l) r1, r2)

-- A call for a timed-out poll does not depend on the event buffer, which holds nothing then.
pub analyse-timeout_irrelevant :
    (k : KeyPressInfo) (x y : InputEvent) (t : TimeVal)
    → analyse (timeout x t) k ≡ analyse (timeout y t) k
unfolding analyse input_keys_analyse
analyse-timeout_irrelevant k x y t = ground arith

-- The press that names the listener's first key does not set the start time: a timeout later than
-- one second behind the old start time is reported as a long press, however short the key was held.
analyse_all-first_press_long :
    (k : KeyPressInfo) (c : ℕ) (t u : TimeVal) (stale : InputEvent)
    → k.code ≡ 0
    → micros k.start_time + key_long_press_time ≤ micros u
    → (analyse_all (key_event c key_press t ∷ timeout stale u ∷ []) k).1 ≡ report long c true ∷ []
unfolding analyse_all analyse input_keys_analyse
analyse_all-first_press_long k c t u stale z h =
    ground (arith, reached_of_le key_long_press_time k.start_time u h)
