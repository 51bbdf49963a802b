-- ===== src/Sensor/Order.antt =====
-- The order of the events (gsensor_test.c): what the loop of `asensor_thread` takes from a poll behind
-- its first complete value and a flush.
use multi_test.Prelude.{◌+◌, ◌<◌, ◌≡◌, refl, sym, ap, ◌∙◌, false, ◌||◌, List, [], ◌∷◌, arith}
use mathlib.Core.List.{Permᴰ}
use multi_test.Sensor.Axes.{
  Floats, Event, motion, meta_data, other_event, Axes, axis_passes, keep_first, judge_motion,
  on_event, on_events,
}

-- A first value is kept, and a flush was seen.
pub record IsReady {F : Type 0} (a : Axes F) : Type 0 where
  pub kept : a.onetime ≡ false
  pub flushed : 0 < a.flush

module _ {F : Type 0} (fl : Floats F) where
  judge_motion-IsReady : (x y z : F) (a : Axes F) → IsReady a → IsReady (judge_motion fl x y z a)
  unfolding judge_motion keep_first
  judge_motion-IsReady x y z a r = ground arith

  on_event-IsReady : (e : Event F) (a : Axes F) → IsReady a → IsReady (on_event fl e a)
  unfolding on_event
  on_event-IsReady (motion x y z) a r = judge_motion-IsReady x y z a r
  on_event-IsReady meta_data a r = ground arith
  on_event-IsReady other_event a r = r

  judge_motion_lem :
      (x y z : F) (a : Axes F)
      → IsReady a
      → judge_motion fl x y z a ≡ record a {
        x_pass = a.x_pass || axis_passes fl a.x_value x 1;
        y_pass = a.y_pass || axis_passes fl a.y_value y 1;
        z_pass = a.z_pass || axis_passes fl a.z_value z 1;
      }
  unfolding judge_motion keep_first axis_passes
  judge_motion_lem x y z a r = ground arith

  judge_motion_comm :
      (x y z x' y' z' : F) (a : Axes F)
      → IsReady a
      → judge_motion fl x y z (judge_motion fl x' y' z' a)
        ≡ judge_motion fl x' y' z' (judge_motion fl x y z a)
  judge_motion_comm x y z x' y' z' a r =
      let b = judge_motion fl x y z a in
      let c = judge_motion fl x' y' z' a in
      ground (
        arith,
        judge_motion_lem x y z a r,
        judge_motion_lem x' y' z' a r,
        judge_motion_lem x' y' z' b (judge_motion-IsReady x y z a r),
        judge_motion_lem x y z c (judge_motion-IsReady x' y' z' a r),
      )

  judge_motion-meta_data :
      (x y z : F) (a : Axes F)
      → IsReady a
      → judge_motion fl x y z (record a { flush = a.flush + 1 })
        ≡ record (judge_motion fl x y z a) { flush = (judge_motion fl x y z a).flush + 1 }
  unfolding judge_motion keep_first axis_passes
  judge_motion-meta_data x y z a r = ground arith

  -- Two events behind the first value and a flush come to the same in either order.
  on_event_comm :
      (e f : Event F) (a : Axes F)
      → IsReady a
      → on_event fl e (on_event fl f a) ≡ on_event fl f (on_event fl e a)
  unfolding on_event
  on_event_comm (motion x y z) (motion x' y' z') a r = judge_motion_comm x y z x' y' z' a r
  on_event_comm (motion x y z) meta_data a r = judge_motion-meta_data x y z a r
  on_event_comm (motion x y z) other_event a r = refl
  on_event_comm meta_data (motion x' y' z') a r = sym (judge_motion-meta_data x' y' z' a r)
  on_event_comm meta_data meta_data a r = refl
  on_event_comm meta_data other_event a r = refl
  on_event_comm other_event f a r = refl

  on_events-IsReady : (es : List (Event F)) (a : Axes F) → IsReady a → IsReady (on_events fl es a)
  unfolding on_events
  on_events-IsReady [] a r = r
  on_events-IsReady (e ∷ es) a r = on_events-IsReady es (on_event fl e a) (on_event-IsReady e a r)

  -- Behind the first complete value and a flush, the order of the events does not matter: it changes
  -- nothing that the loop keeps.
  pub on_events-perm :
      (es fs : List (Event F)) (a : Axes F)
      → Permᴰ es fs
      → IsReady a
      → on_events fl es a ≡ on_events fl fs a
  unfolding on_events
  on_events-perm _ _ w Permᴰ.nil r = refl
  on_events-perm _ _ w (Permᴰ.cons {a = e} {b = f} {l₁ = es} {l₂ = fs} p q) r =
      ap (λ d. on_events fl es (on_event fl d w)) p
      ∙ on_events-perm es fs (on_event fl f w) q (on_event-IsReady f w r)
  on_events-perm _ _ w (Permᴰ.swap {a = e} {b = f} {a' = e'} {b' = f'} {l = es} p q) r =
      ap (on_events fl es) (on_event_comm f e w r)
      ∙ ap (λ d. on_events fl es (on_event fl d (on_event fl f w))) p
      ∙ ap (λ d. on_events fl es (on_event fl f' (on_event fl d w))) q
  on_events-perm _ _ w (Permᴰ.trans {l₁ = es} {l₂ = gs} {l₃ = fs} p q) r =
      on_events-perm es gs w p r ∙ on_events-perm gs fs w q r
