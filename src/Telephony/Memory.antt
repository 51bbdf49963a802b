-- ===== src/Telephony/Memory.antt =====
-- The memory of the telephony client (tel_test/ls_telephony_util.cpp): the structures of the radio
-- interface that replies are read into, and the static arrays.
use multi_test.Prelude.{Bool, List, Option, none, some, length}
use multi_test.Prelude.Int.{ℤ}
use multi_test.Prelude.Text.{Bytes, c_str}
use multi_test.Prelude.Buffer.{store_at, zeros}

-- The platform's Parcel, as far as it is read: `readInt32`, whose target keeps its value if no number
-- can be read, and `readString16Inplace`, NULL if no text can be read, already as bytes.
pub record Reader (P : Type 0) : Type 0 where
  pub read_int32 : P → Option ℤ × P
  pub read_string : P → Option Bytes × P

-- RIL_REQUEST_*, as far as the code names them.
pub data RilRequest : Type 0 where
  get_sim_status get_current_calls dial get_imsi hangup send_sms answer get_smsc_address :
      RilRequest
  send_at unknown_request : RilRequest

-- One entry of `applications`. Its two pointers are to `aid_ptr` and `app_label_ptr`, or NULL.
pub record Application : Type 0 where
  pub app_type : ℤ
  pub app_state : ℤ
  pub perso_substate : ℤ
  pub has_aid : Bool
  pub has_label : Bool
  pub pin1_replaced : ℤ
  pub pin1 : ℤ
  pub pin2 : ℤ

-- RIL_CardStatus.
pub record CardStatus : Type 0 where
  pub card_state : ℤ
  pub universal_pin_state : ℤ
  pub gsm_umts_subscription_app_index : ℤ
  pub cdma_subscription_app_index : ℤ
  pub ims_subscription_app_index : ℤ
  pub num_applications : ℤ
  pub applications : List Application

-- RIL_Call. Its two pointers are to `number` and `name`, or NULL.
pub record RilCall : Type 0 where
  pub state : ℤ
  pub index : ℤ
  pub toa : ℤ
  pub is_mpty : ℤ
  pub is_mt : ℤ
  pub als : ℤ
  pub is_voice : ℤ
  pub is_voice_privacy : ℤ
  pub has_number : Bool
  pub number_presentation : ℤ
  pub has_name : Bool
  pub name_presentation : ℤ

-- The static arrays.
pub record Statics : Type 0 where
  pub aid_ptr : Bytes
  pub app_label_ptr : Bytes
  pub number : Bytes
  pub name : Bytes

-- What `result` points to.
pub data Memory : Type 0 where
  null : Memory
  chars : Bytes → Memory
  card : CardStatus → Memory
  calls : List RilCall → Memory

-- The value of a variable that is read into.
abbrev pub or_old : ℤ → Option ℤ → ℤ
or_old v none = v
or_old v (some w) = w

-- `memcpy(array, text, strlen(text))`: what stood behind it stays.
abbrev pub copy_over : Bytes → Option Bytes → Option Bytes
copy_over array none = some array
copy_over array (some text) = store_at array 0 (c_str text)

-- The same, with the array cleared first.
abbrev pub clear_and_copy : Bytes → Option Bytes → Option Bytes
clear_and_copy array none = some array
clear_and_copy array (some text) = store_at (zeros (length array)) 0 (c_str text)
