-- ===== src/Key.antt =====
-- The key listener (key_app.cpp, includes/zib_key.h): its data, and the children that model it.
-- Key/Machine is `input_keys_analyse`, Key/Devices the table of polled devices, Key/Thread the loop
-- of `input_thread`, Key/Start is `key_test`.
pub mod Machine
pub mod Protocol
pub mod Gestures
pub mod Devices
pub mod Thread
pub mod Start
use multi_test.Prelude.{ℕ, Bool, List}
use multi_test.Prelude.Int.{ℤ, pos, ◌+ℤ◌, ◌-ℤ◌, ◌*ℤ◌}

-- The values of `last_key.state`; no other number is ever stored there.
pub data KeyState : Type 0 where
  all_release first_press first_release second_press second_release : KeyState
  triple_press triple_release : KeyState
  check_long_key_release check_double_key_release check_triple_key_release : KeyState

pub record TimeVal : Type 0 where
  pub tv_sec : ℕ
  pub tv_usec : ℕ

pub record KeyPressInfo : Type 0 where
  pub code : ℕ
  pub is_press : ℕ
  pub state : KeyState
  pub start_time : TimeVal
  pub end_time : TimeVal

-- `struct input_event` of the kernel; `value` is the bit pattern of the 32-bit field.
pub record InputEvent : Type 0 where
  pub type : ℕ
  pub code : ℕ
  pub value : ℕ

pub data Gesture : Type 0 where
  single double triple long : Gesture

-- A call of one of the four `…_key_handle(code, is_press)`.
pub record Report : Type 0 where
  pub gesture : Gesture
  pub code : ℕ
  pub is_press : Bool

abbrev pub key_click_gap : ℕ
key_click_gap = 200000

abbrev pub key_long_press_time : ℕ
key_long_press_time = 1000000

abbrev pub key_release : ℕ
key_release = 0

abbrev pub key_press : ℕ
key_press = 1

abbrev pub key_repeat : ℕ
key_repeat = 2

unfoldable pub timeval_diff : TimeVal → TimeVal → ℤ
unfolding ◌+ℤ◌ ◌-ℤ◌ ◌*ℤ◌
timeval_diff big small =
    (pos big.tv_sec -ℤ pos small.tv_sec) *ℤ pos 1000000 +ℤ pos big.tv_usec -ℤ pos small.tv_usec
