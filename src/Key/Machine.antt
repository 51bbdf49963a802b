-- ===== src/Key/Machine.antt =====
-- `input_keys_analyse` (key_app.cpp): one function for each case of its switch. A case gets whether
-- the poll succeeded, the event, the elapsed microseconds, the clock reading taken if it restarts
-- the interval, and the key record.
use multi_test.Prelude.{
  ℕ, ◌+◌, Bool, true, false, not, ◌&&◌, ◌||◌, List, [], ◌∷◌, leb, ◌==◌, if◌then◌else◌,
}
use multi_test.Prelude.Int.{ℤ, pos_part, neg_part}
use multi_test.Key.{
  KeyState, all_release, first_press, first_release, second_press, second_release, triple_press,
  triple_release, check_long_key_release, check_double_key_release, check_triple_key_release,
  TimeVal, KeyPressInfo, InputEvent, Gesture, single, double, triple, long, Report, key_click_gap,
  key_long_press_time, key_release, key_press, key_repeat, timeval_diff,
}

abbrev pub Outcome : Type 0
Outcome = KeyPressInfo × List Report

-- elapsed >= limit
abbrev pub reached : ℕ → ℤ → Bool
reached limit elapsed = leb (limit + neg_part elapsed) (pos_part elapsed)

-- POLL_TIMEOUT == type || KEY_REPEAT == ev->value
abbrev pub is_tick : Bool → InputEvent → Bool
is_tick success ev = not success || ev.value == key_repeat

abbrev goto : KeyPressInfo → KeyState → Outcome
goto k s = (record k { state = s }, [])

abbrev goto_with : KeyPressInfo → KeyState → Gesture → Bool → Outcome
goto_with k s g p =
    (record k { state = s }, record { gesture = g; code = k.code; is_press = p } ∷ [])

abbrev restart : KeyPressInfo → TimeVal → KeyState → Outcome
restart k t s = (record k { state = s; start_time = t }, [])

on_all_release : Bool → InputEvent → ℤ → TimeVal → KeyPressInfo → Outcome
on_all_release success ev elapsed later k =
    if is_tick success ev
    then (k, [])
    else if ev.value == key_press
    then (record k { state = first_press; code = ev.code; start_time = later }, [])
    else (k, [])

on_first_press : Bool → InputEvent → ℤ → TimeVal → KeyPressInfo → Outcome
on_first_press success ev elapsed later k =
    if is_tick success ev
    then if reached key_long_press_time elapsed
      then goto_with k check_long_key_release long true
      else (k, [])
    else if ev.value == key_press
    then if k.code == ev.code then (k, []) else goto k all_release
    else if k.code == ev.code
    then if reached key_click_gap elapsed
      then goto_with k all_release single false
      else restart k later first_release
    else goto k all_release

on_first_release : Bool → InputEvent → ℤ → TimeVal → KeyPressInfo → Outcome
on_first_release success ev elapsed later k =
    if is_tick success ev
    then if reached key_click_gap elapsed then goto_with k all_release single false else (k, [])
    else if ev.value == key_release
    then if k.code == ev.code then (k, []) else goto k all_release
    else if k.code == ev.code
    then restart k later second_press
    else goto k all_release

on_second_press : Bool → InputEvent → ℤ → TimeVal → KeyPressInfo → Outcome
on_second_press success ev elapsed later k =
    if is_tick success ev
    then if reached key_click_gap elapsed
      then goto_with k check_double_key_release double true
      else (k, [])
    else if ev.value == key_press
    then if k.code == ev.code then (k, []) else goto k all_release
    else if k.code == ev.code
    then restart k later second_release
    else goto k all_release

on_second_release : Bool → InputEvent → ℤ → TimeVal → KeyPressInfo → Outcome
on_second_release success ev elapsed later k =
    if is_tick success ev
    then if reached key_click_gap elapsed then goto_with k all_release double false else (k, [])
    else if ev.value == key_release
    then if k.code == ev.code then (k, []) else goto k all_release
    else if k.code == ev.code
    then goto_with k check_triple_key_release triple true
    else goto k all_release

-- The three states that wait for the key to come up.
on_check : Gesture → Bool → InputEvent → KeyPressInfo → Outcome
on_check g success ev k =
    if success && ev.code == k.code && ev.value == key_release
    then goto_with k all_release g false
    else (k, [])

unfoldable pub dispatch : KeyState → Bool → InputEvent → ℤ → TimeVal → KeyPressInfo → Outcome
unfolding on_all_release on_first_press on_first_release on_second_press on_second_release on_check
dispatch all_release success ev elapsed later k = on_all_release success ev elapsed later k
dispatch first_press success ev elapsed later k = on_first_press success ev elapsed later k
dispatch first_release success ev elapsed later k = on_first_release success ev elapsed later k
dispatch second_press success ev elapsed later k = on_second_press success ev elapsed later k
dispatch second_release success ev elapsed later k = on_second_release success ev elapsed later k
dispatch check_long_key_release success ev elapsed later k = on_check long success ev k
dispatch check_double_key_release success ev elapsed later k = on_check double success ev k
dispatch check_triple_key_release success ev elapsed later k = on_check triple success ev k
dispatch triple_press success ev elapsed later k = goto k all_release
dispatch triple_release success ev elapsed later k = goto k all_release

-- The step in front of the switch: the first event of all names the key.
unfoldable pub adopt : Bool → InputEvent → KeyPressInfo → KeyPressInfo
adopt success ev k =
    if success && k.code == 0 then record k { code = ev.code; state = first_press } else k

-- `now` is the first reading of the clock, `later` the one taken when an interval is restarted.
-- `elapsed` is computed before `adopt`, which leaves the times alone.
unfoldable pub input_keys_analyse : Bool → InputEvent → TimeVal → TimeVal → KeyPressInfo → Outcome
unfolding dispatch adopt
input_keys_analyse success ev now later k =
    let k' = adopt success ev (record k { end_time = now }) in
    dispatch k'.state success ev (timeval_diff now k.start_time) later k'
