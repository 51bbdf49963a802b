-- ===== src/Tests/Sensor.antt =====
-- The accelerometer at concrete inputs.
use multi_test.Prelude.{
  ◌/◌, ℕ, ◌≡◌, ◌⊎◌, zero, suc, false, List, [], ◌∷◌, Option, none, some, ltb, ◌==◌, refl, arith,
}
use mathlib.Core.List.{Permᴰ}
use multi_test.Sensor.Order.{on_events-perm}
use multi_test.Prelude.Int.{ℤ, pos, negsuc}
use multi_test.Sensor.Axes.{Floats, Event, motion, meta_data, other_event, Axes, on_events}
use multi_test.Sensor.Thread.{Polled, SensorResult, rl_pass, rl_fail, asensor_thread}
use multi_test.Sensor.Evidence.{Axis, Shown, asensor_thread-Shown}

abbrev to_nat : ℤ → ℕ
to_nat (pos n) = n
to_nat (negsuc n) = 0

-- Whole values, of which those between 8 and 12 show 1 g.
abbrev whole : Floats ℕ
whole = record {
  less = ltb;
  equal = λ a b. a == b;
  divide = λ a b. a;
  of_int = to_nat;
  start_1 = 8;
  end_1 = 12;
  start_2 = 20;
  end_2 = 20;
}

-- A first value, then a flush, then 1 g on each axis.
abbrev seen : ℕ → List (Event ℕ)
seen zero = motion 1 1 1 ∷ meta_data ∷ []
seen (suc zero) = motion 10 9 2 ∷ []
seen (suc (suc n)) = other_event ∷ motion 3 3 11 ∷ []

abbrev view : ℕ → Polled ℕ
view i = record { elapsed = i; events = some (seen i) }

abbrev fresh : Axes ℕ
fresh = record {
  x_pass = false;
  y_pass = false;
  z_pass = false;
  onetime = false;
  flush = 0;
  x_value = 0;
  y_value = 0;
  z_value = 0;
}

verdict_of : Option (Axes ℕ × SensorResult) → Option SensorResult
verdict_of none = none
verdict_of (some (b, v)) = some v

asensor_thread-passes : verdict_of (asensor_thread whole 20 21 view fresh) ≡ some rl_pass
unfolding verdict_of asensor_thread on_events
asensor_thread-passes = refl

-- Four polls in a second.
abbrev often : ℕ → Polled ℕ
often i = record { elapsed = i / 4; events = some (seen i) }

asensor_thread-Shown_example :
    (b : Axes ℕ) × (v : SensorResult) × (asensor_thread whole 20 81 often fresh ≡ some (b, v))
    × ((v ≡ rl_fail) ⊎ ((v ≡ rl_pass) × ((axis : Axis) → Shown whole axis often)))
asensor_thread-Shown_example = asensor_thread-Shown whole 20 80 often fresh (omega arith)

abbrev ready : Axes ℕ
ready = record fresh { flush = 1; x_value = 1; y_value = 1; z_value = 1 }

on_events-perm_example :
    on_events whole (motion 10 9 2 ∷ meta_data ∷ []) ready
    ≡ on_events whole (meta_data ∷ motion 10 9 2 ∷ []) ready
on_events-perm_example =
    on_events-perm whole (motion 10 9 2 ∷ meta_data ∷ []) (meta_data ∷ motion 10 9 2 ∷ []) ready
      (Permᴰ.swap refl refl) (record { kept = refl; flushed = omega arith })
