-- ===== src/Sensor/Evidence.antt =====
-- What a pass of `asensor_thread` needs (gsensor_test.c).
use multi_test.Prelude.{
  ℕ, zero, suc, ◌+◌, ◌≤◌, Bool, true, false, ◌||◌, List, [], ◌∷◌, some, ◌≡◌, ◌⊎◌, arith, sym, leb,
  Bool-cases, Option-cases, inl, inr,
}
use mathlib.Core.Path.{subst}
use multi_test.Sensor.Axes.{
  Floats, Event, motion, meta_data, other_event, Axes, asensor_check, axis_passes, keep_first,
  judge_motion, on_event, on_events, all_pass,
}
use multi_test.Sensor.Thread.{
  Polled, SensorResult, rl_pass, rl_fail, verdict, begin, poll_loop, asensor_thread, poll_loop-ends,
}

pub data Axis : Type 0 where
  x_axis y_axis z_axis : Axis

abbrev pub passed : {F : Type 0} → Axis → Axes F → Bool
passed x_axis a = a.x_pass
passed y_axis a = a.y_pass
passed z_axis a = a.z_pass

verdict-passed :
    {F : Type 0} (a : Axes F) → verdict a ≡ rl_pass → (axis : Axis) → passed axis a ≡ true
verdict-passed a h x_axis = ground arith
verdict-passed a h y_axis = ground arith
verdict-passed a h z_axis = ground arith

not-passed-begin : {F : Type 0} (a : Axes F) (axis : Axis) → passed axis (begin a) ≡ true → ⊥
unfolding begin
not-passed-begin a x_axis h = ground arith
not-passed-begin a y_axis h = ground arith
not-passed-begin a z_axis h = ground arith

module _ {F : Type 0} (fl : Floats F) where
  -- The event has a value on the axis that lies at 1 g.
  abbrev pub shows : Axis → Event F → Bool
  shows x_axis (motion x y z) = asensor_check fl x
  shows y_axis (motion x y z) = asensor_check fl y
  shows z_axis (motion x y z) = asensor_check fl z
  shows axis meta_data = false
  shows axis other_event = false

  abbrev pub some_shows : Axis → List (Event F) → Bool
  some_shows axis [] = false
  some_shows axis (e ∷ es) = shows axis e || some_shows axis es

  motion-shows :
      (axis : Axis) (x y z : F) (a : Axes F)
      → passed axis (judge_motion fl x y z a) ≡ true
      → (passed axis a ≡ true) ⊎ (shows axis (motion x y z) ≡ true)
  unfolding judge_motion keep_first axis_passes
  motion-shows x_axis x y z a h = elim (Bool-cases (asensor_check fl x)) [
    | inl s ↦ inr s
    | inr s ↦ inl (ground arith)
  ]
  motion-shows y_axis x y z a h = elim (Bool-cases (asensor_check fl y)) [
    | inl s ↦ inr s
    | inr s ↦ inl (ground arith)
  ]
  motion-shows z_axis x y z a h = elim (Bool-cases (asensor_check fl z)) [
    | inl s ↦ inr s
    | inr s ↦ inl (ground arith)
  ]

  event-shows :
      (axis : Axis) (e : Event F) (a : Axes F)
      → passed axis (on_event fl e a) ≡ true
      → (passed axis a ≡ true) ⊎ (shows axis e ≡ true)
  unfolding on_event
  event-shows axis (motion x y z) a h = motion-shows axis x y z a h
  event-shows x_axis meta_data a h = inl h
  event-shows y_axis meta_data a h = inl h
  event-shows z_axis meta_data a h = inl h
  event-shows axis other_event a h = inl h

  events-show :
      (axis : Axis) (es : List (Event F)) (a : Axes F)
      → passed axis (on_events fl es a) ≡ true
      → (passed axis a ≡ true) ⊎ (some_shows axis es ≡ true)
  unfolding on_events
  events-show axis [] a h = inl h
  events-show axis (e ∷ es) a h = elim (events-show axis es (on_event fl e a) h) [
    | inl p ↦ elim (event-shows axis e a p) [ inl q ↦ inl q | inr s ↦ inr (ground arith) ]
    | inr s ↦ inr (ground arith)
  ]

  -- Some poll gives an event that shows the axis at 1 g.
  abbrev pub Shown : Axis → (ℕ → Polled F) → Type 0
  Shown axis view =
      (j : ℕ) × (es : List (Event F)) × ((view j).events ≡ some es) × (some_shows axis es ≡ true)

  poll_loop-Shown :
      (timeout n k : ℕ) (view : ℕ → Polled F) (a b : Axes F) (axis : Axis)
      → poll_loop fl timeout n k view a ≡ some b
      → passed axis b ≡ true
      → (passed axis a ≡ true) ⊎ Shown axis view
  unfolding poll_loop
  poll_loop-Shown timeout zero k view a b axis r h = ground arith
  poll_loop-Shown timeout (suc n) k view a b axis r h = elim (Option-cases (view k).events) [
    | inl e ↦
        inl (let same : a ≡ b = ground arith in subst (λ c. passed axis c ≡ true) (sym same) h)
    | inr (es, e) ↦
        let c = on_events fl es a in
        let here : passed axis c ≡ true → (passed axis a ≡ true) ⊎ Shown axis view =
          λ p. elim (events-show axis es a p) [ inl q ↦ inl q | inr s ↦ inr (k, es, e, s) ] in
        elim (Bool-cases (leb timeout (view k).elapsed || all_pass c)) [
          | inl stop ↦
              here
                (let same : c ≡ b = ground arith in subst (λ d. passed axis d ≡ true) (sym same) h)
          | inr more ↦ elim (poll_loop-Shown timeout n (k + 1) view c b axis (ground arith) h) [
            | inl p ↦ here p
            | inr s ↦ inr s
          ]
        ]
  ]

  -- If poll n is called when the time limit has passed, however often the sensor has been polled by then,
  -- the thread ends within n + 1 polls, and it fails, or it passes and on each axis some event showed 1 g.
  pub asensor_thread-Shown :
      (timeout n : ℕ) (view : ℕ → Polled F) (a : Axes F)
      → timeout ≤ (view n).elapsed
      → (b : Axes F) × (v : SensorResult) × (asensor_thread fl timeout (n + 1) view a ≡ some (b, v))
        × ((v ≡ rl_fail) ⊎ ((v ≡ rl_pass) × ((axis : Axis) → Shown axis view)))
  unfolding asensor_thread
  asensor_thread-Shown timeout n view a t =
      let (b, r) =
        poll_loop-ends fl timeout (n + 1) 0 n view (begin a) t (omega arith) (omega arith) in
      let shown : verdict b ≡ rl_pass → (axis : Axis) → Shown axis view = λ p axis.
        elim (poll_loop-Shown timeout (n + 1) 0 view (begin a) b axis r (verdict-passed b p axis)) [
          | inl q ↦ absurd (not-passed-begin a axis q)
          | inr s ↦ s
        ] in
      (
        b,
        verdict b,
        ground (arith, r),
        elim (Bool-cases (all_pass b)) [
          | inl p ↦ let q : verdict b ≡ rl_pass = ground arith in inr (q, shown q)
          | inr p ↦ inl (ground arith)
        ],
      )
