-- ===== src/Sensor/Axes.antt =====
-- Judging an event of the accelerometer (gsensor_test.c): `asensor_check`, and what the loop of
-- `asensor_thread` does for one event. The numbers of C are a parameter, and so are the constants of
-- the test's header.
use multi_test.Prelude.{ℕ, ◌+◌, Bool, false, not, ◌&&◌, ◌||◌, List, [], ◌∷◌, if◌then◌else◌, ◌==◌}
use multi_test.Prelude.Int.{ℤ, pos}

-- `float`: an order and an equality with the promotions of `int`, and division. `one_g` is
-- SPRD_ASENSOR_1G, `offset` SPRD_ASENSOR_OFFSET; the bounds are sums of these two or their negations.
pub record Floats (F : Type 0) : Type 0 where
  pub less : F → F → Bool
  pub equal : F → F → Bool
  pub divide : F → F → F
  pub of_int : ℤ → F
  pub start_1 : F
  pub end_1 : F
  pub start_2 : F
  pub end_2 : F

pub data Event (F : Type 0) : Type 0 where
  motion : F → F → F → Event F
  meta_data : Event F
  other_event : Event F

-- The variables of the loop. A flush is `flush != 0`.
pub record Axes (F : Type 0) : Type 0 where
  pub x_pass : Bool
  pub y_pass : Bool
  pub z_pass : Bool
  pub onetime : Bool
  pub flush : ℕ
  pub x_value : F
  pub y_value : F
  pub z_value : F

module _ {F : Type 0} (fl : Floats F) where
  -- Its value 0, without HAL_VERSION_1_3.
  unfoldable pub asensor_check : F → Bool
  asensor_check datas =
      let d =
        if fl.less (fl.of_int (pos 10000)) datas
        then fl.divide datas (fl.of_int (pos 1000))
        else datas in
      fl.less fl.start_1 d && fl.less d fl.end_1 || fl.less fl.start_2 d && fl.less d fl.end_2

  abbrev is_set : F → Bool
  is_set v = not (fl.equal v (fl.of_int (pos 0)))

  -- The value of an axis passes behind a flush if it lies at 1 g and is not the first value.
  unfoldable pub axis_passes : F → F → ℕ → Bool
  unfolding asensor_check
  axis_passes first v flush = asensor_check v && not (fl.equal first v) && not (flush == 0)

  -- The first complete value is kept.
  unfoldable pub keep_first : F → F → F → Axes F → Axes F
  keep_first x y z a =
      if a.onetime && is_set x && is_set y && is_set z
      then record a { onetime = false; x_value = x; y_value = y; z_value = z }
      else a

  unfoldable pub judge_motion : F → F → F → Axes F → Axes F
  unfolding keep_first axis_passes
  judge_motion x y z a =
      let b = keep_first x y z a in
      record b {
        x_pass = b.x_pass || axis_passes b.x_value x b.flush;
        y_pass = b.y_pass || axis_passes b.y_value y b.flush;
        z_pass = b.z_pass || axis_passes b.z_value z b.flush;
      }

  unfoldable pub on_event : Event F → Axes F → Axes F
  unfolding judge_motion
  on_event (motion x y z) a = judge_motion x y z a
  on_event meta_data a = record a { flush = a.flush + 1 }
  on_event other_event a = a

  unfoldable pub on_events : List (Event F) → Axes F → Axes F
  unfolding on_event
  on_events [] a = a
  on_events (e ∷ es) a = on_events es (on_event e a)

abbrev pub all_pass : {F : Type 0} → Axes F → Bool
all_pass a = a.x_pass && a.y_pass && a.z_pass
