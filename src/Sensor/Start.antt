-- ===== src/Sensor/Start.antt =====
-- Starting the accelerometer test (gsensor_test.c): `test_asensor_start`, and `sprd_gsensor_xyz` with
-- `zib_gsensor_test`, which the command line calls. What the sensor library and the device give is an
-- argument.
use multi_test.Prelude.{
  ◌≡◌, Bool, true, [], Option, none, some, if◌then◌else◌, take, arith, Option-cases, inl, inr,
}
use multi_test.Prelude.Int.{ℤ, pos}
use multi_test.Prelude.Text.{Bytes}
use multi_test.Prelude.Buffer.{store_at}
use multi_test.Sensor.Thread.{SensorResult}

-- The static variables: whether `senloaded` is not negative, and `asensor_result`.
pub record Sensors : Type 0 where
  pub senloaded : Bool
  pub asensor_result : SensorResult

-- `load` and `enable` are whether `sensor_load` and `sensor_enable` succeed, `thread` the thread's
-- result, none if it does not end. (The tests of the result compare the thread function's address,
-- and only print.)
unfoldable pub test_asensor_start :
    Bool → Bool → Option SensorResult → Sensors → Option (Sensors × SensorResult)
test_asensor_start load enable thread w =
    let loaded = if w.senloaded then true else load in
    let stays : Sensors = record w { senloaded = loaded } in
    let ends = λ (v : SensorResult). some (record { senloaded = loaded; asensor_result = v }, v) in
    if loaded
    then if enable
      then elim thread [ none ↦ none | some v ↦ ends v ]
      else some (stays, w.asensor_result)
    else some (stays, w.asensor_result)

-- What the read of the device gives: `ret` its value and `bytes` what it stores in `value[20]`, whose
-- bytes before are `value`. The size asked for is not initialised. `char` is unsigned on ARM.
pub record Read : Type 0 where
  pub value : Bytes
  pub bytes : Bytes
  pub ret : ℤ

-- The value of `sprd_gsensor_xyz` and what it stores through its three pointers: `errno` and nothing
-- if the device does not open, that of `read` and three bytes of the array otherwise. None is a read
-- that goes behind the array.
unfoldable pub sprd_gsensor_xyz : Option Read → ℤ → Option (ℤ × Bytes)
sprd_gsensor_xyz none errno = some (errno, [])
sprd_gsensor_xyz (some r) errno = elim (store_at r.value 0 r.bytes) [
  | none ↦ none
  | some value ↦ some (r.ret, take 3 value)
]

-- The value read is only printed.
unfoldable pub zib_gsensor_test : Option Read → ℤ → Option ℤ
unfolding sprd_gsensor_xyz
zib_gsensor_test device errno = elim (sprd_gsensor_xyz device errno) [
  | none ↦ none
  | some v ↦ some (pos 1)
]

-- Every value is 1.
pub zib_gsensor_test-one :
    (device : Option Read) (errno v : ℤ) → zib_gsensor_test device errno ≡ some v → v ≡ pos 1
unfolding zib_gsensor_test
zib_gsensor_test-one device errno v h = elim (Option-cases (sprd_gsensor_xyz device errno)) [
  | inl e ↦ absurd (ground arith)
  | inr (x, e) ↦ ground arith
]
