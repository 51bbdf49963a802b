-- ===== src/Sensor/Thread.antt =====
-- The loop of `asensor_thread` (gsensor_test.c).
use multi_test.Prelude.{
  ℕ, zero, suc, ◌+◌, ◌≤◌, ◌<◌, true, false, List, Option, none, some, ◌≡◌, arith, if◌then◌else◌,
  leb, ◌==◌, Bool-cases, Option-cases, inl, inr,
}
use mathlib.Core.Path.{subst}
use multi_test.Sensor.Axes.{Floats, Event, Axes, on_events, all_pass}

-- One `poll`: the seconds since the start when it is called, and its events, none for an error.
pub record Polled (F : Type 0) : Type 0 where
  pub elapsed : ℕ
  pub events : Option (List (Event F))

pub data SensorResult : Type 0 where
  unknown rl_pass rl_fail : SensorResult

abbrev pub verdict : {F : Type 0} → Axes F → SensorResult
verdict a = if all_pass a then rl_pass else rl_fail

-- The passes and the counter are cleared; the values are not.
unfoldable pub begin : {F : Type 0} → Axes F → Axes F
begin a = record a { x_pass = false; y_pass = false; z_pass = false; onetime = true; flush = 0 }

module _ {F : Type 0} (fl : Floats F) (timeout : ℕ) where
  -- The loop from poll `k` on, by the polls allowed; none if they do not suffice.
  unfoldable pub poll_loop : ℕ → ℕ → (ℕ → Polled F) → Axes F → Option (Axes F)
  poll_loop zero k view a = none
  poll_loop (suc n) k view a = elim (view k).events [
    | none ↦ some a
    | some es ↦
        let b = on_events fl es a in
        if leb timeout (view k).elapsed
        then some b
        else if all_pass b
        then some b
        else poll_loop n (k + 1) view b
  ]

  unfoldable pub asensor_thread : ℕ → (ℕ → Polled F) → Axes F → Option (Axes F × SensorResult)
  unfolding poll_loop begin
  asensor_thread polls view a = elim (poll_loop polls 0 view (begin a)) [
    | none ↦ none
    | some b ↦ some (b, verdict b)
  ]

  earlier_poll :
      (last k : ℕ) (view : ℕ → Polled F)
      → timeout ≤ (view last).elapsed
      → k ≤ last
      → leb timeout (view k).elapsed ≡ false
      → k + 1 ≤ last
  earlier_poll last k view t l early = elim (Bool-cases (last == k)) [
    | inl e ↦
        let same : last ≡ k = ground arith in
        let here : timeout ≤ (view k).elapsed = subst (λ i. timeout ≤ (view i).elapsed) same t in
        absurd (ground arith)
    | inr e ↦ ground arith
  ]

  -- The loop ends if its polls reach one at the time limit.
  pub poll_loop-ends :
      (n k last : ℕ) (view : ℕ → Polled F) (a : Axes F)
      → timeout ≤ (view last).elapsed
      → last < n + k
      → k ≤ last
      → (b : Axes F) × (poll_loop n k view a ≡ some b)
  unfolding poll_loop
  poll_loop-ends zero k last view a t h l = absurd (omega arith)
  poll_loop-ends (suc n) k last view a t h l = elim (Option-cases (view k).events) [
    | inl e ↦ (a, ground arith)
    | inr (es, e) ↦
        let b = on_events fl es a in
        elim (Bool-cases (leb timeout (view k).elapsed)) [
          | inl late ↦ (b, ground arith)
          | inr early ↦ elim (Bool-cases (all_pass b)) [
            | inl done ↦ (b, ground arith)
            | inr more ↦
                let (c, r) =
                  poll_loop-ends n (k + 1) last view b t (omega arith)
                    (earlier_poll last k view t l early) in
                (c, ground (arith, r))
          ]
        ]
  ]
