-- ===== src/Types.antt =====
-- The records that the parts exchange: include/domain/telemetry_types.h, and the message structs of
-- generated/protobuf-c/robot_telemetry.pb-c.h. `F` is the type `float`; a text is the list of its
-- bytes without the closing NUL, and a pointer that may be NULL is an `Option`.
use telemetry_testbed.Base.{ℕ, zero, suc, List, Option, Bool}
use telemetry_testbed.Base.Int.{ℤ}

pub record Vec3 (F : Type 0) : Type 0 where
  pub x : F
  pub y : F
  pub z : F

-- An array of two, one entry for each motor.
pub record Pair (A : Type 0) : Type 0 where
  pub at0 : A
  pub at1 : A

-- `a[idx] = v` for `idx` 0 or 1.
abbrev pub put : {A : Type 0} → ℕ → A → Pair A → Pair A
put zero v a = record a { at0 = v }
put (suc i) v a = record a { at1 = v }

-- `telemetry_state_t`. `raw` is the buffer that the pointer owns.
pub record TelemetryState (F : Type 0) : Type 0 where
  pub received_at_ns : ℤ
  pub msg_timestamp_ns : ℕ
  pub seq : ℕ
  pub robot_id : List ℕ
  pub imu_id : List ℕ
  pub tilt_id : List ℕ
  pub acc_g : Vec3 F
  pub gyro_dps : Vec3 F
  pub tilt_deg : Vec3 F
  pub tilt_status : ℕ
  pub motor_id : Pair (List ℕ)
  pub motor_tics : Pair ℕ
  pub motor_rpm : Pair ℤ
  pub motor_temperature_c : Pair ℤ
  pub motor_voltage_power_stage_mv : Pair ℤ
  pub motor_current_power_stage_ma : Pair ℤ
  pub topic : Option (List ℕ)
  pub raw : Option (List ℕ)
  pub raw_len : ℕ

-- `Robot__V1__Header`, `Robot__V1__MotorState` and `Robot__V1__TelemetryState`.
pub record Header : Type 0 where
  pub robot_id : Option (List ℕ)
  pub timestamp_ns : ℕ
  pub seq : ℕ

pub record MotorState : Type 0 where
  pub motor_id : Option (List ℕ)
  pub tics : ℕ
  pub rpm : ℤ
  pub temperature_c : ℤ
  pub voltage_power_stage_mv : ℤ
  pub current_power_stage_ma : ℤ

pub record StateMessage (F : Type 0) : Type 0 where
  pub header : Option Header
  pub imu_id : Option (List ℕ)
  pub acc_g : Option (Vec3 F)
  pub gyro_dps : Option (Vec3 F)
  pub tilt_id : Option (List ℕ)
  pub tilt_deg : Option (Vec3 F)
  pub tilt_status : ℕ
  pub motor1 : Option MotorState
  pub motor2 : Option MotorState

-- What is used of `float` and `double`: `print6 x` is what `printf` prints for `%.6f` of
-- `(double)x`, and `print_seconds n` what it prints for `%.6f` of `(double)n / 1e9`. Arithmetic is
-- not modelled.
pub record Float : Type 1 where
  pub F : Type 0
  pub nought : F
  pub is_nan : F → Bool
  pub kept : F → F
  pub print6 : F → List ℕ
  pub print_seconds : ℤ → List ℕ
