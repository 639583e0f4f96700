-- ===== src/Cache.antt =====
-- src/sim/telemetry_cache.c and include/sim/telemetry_cache.h: the last value of each sensor,
-- shared by the sensor threads and the state publisher. Each function holds the mutex `mu` from its
-- first access to its last, so a call is one step on the state. `F` is the type `float`.
pub mod Updates
use telemetry_testbed.Base.{ℕ, zero, suc, ◌+◌, ◌%◌, ◌^◌, Option, none, some}
use telemetry_testbed.Base.Int.{ℤ, pos, negsuc}
use telemetry_testbed.Types.{Vec3, Pair, put}

pub record Cache (F : Type 0) : Type 0 where
  pub acc_g : Vec3 F
  pub gyro_dps : Vec3 F
  pub tilt_deg : Vec3 F
  pub tilt_status : ℕ
  pub motor_tics : Pair ℕ
  pub motor_rpm : Pair ℤ
  pub motor_temp_c : Pair ℤ
  pub motor_voltage_mv : Pair ℤ
  pub motor_current_ma : Pair ℤ
  pub seq : ℕ

-- The five readings of `telemetry_cache_set_motor`.
pub record Motor : Type 0 where
  pub tics : ℕ
  pub rpm : ℤ
  pub temperature_c : ℤ
  pub voltage_power_stage_mv : ℤ
  pub current_power_stage_ma : ℤ

abbrev both : {A : Type 0} → A → Pair A
both a = record { at0 = a; at1 = a }

-- `memset` to zero; `nought` is the float whose bytes are all zero.
unfoldable pub telemetry_cache_init : {F : Type 0} → F → Cache F
telemetry_cache_init {F} nought =
    let origin : Vec3 F = record { x = nought; y = nought; z = nought } in
    record {
      acc_g = origin;
      gyro_dps = origin;
      tilt_deg = origin;
      tilt_status = 0;
      motor_tics = both 0;
      motor_rpm = both (pos 0);
      motor_temp_c = both (pos 0);
      motor_voltage_mv = both (pos 0);
      motor_current_ma = both (pos 0);
      seq = 0;
    }

-- `motor_index - 1` where the index is 1 or 2; any other index is refused.
abbrev pub motor_idx : ℤ → Option ℕ
motor_idx (pos zero) = none
motor_idx (pos (suc zero)) = some 0
motor_idx (pos (suc (suc zero))) = some 1
motor_idx (pos (suc (suc (suc n)))) = none
motor_idx (negsuc n) = none

module _ {F : Type 0} where
  unfoldable pub telemetry_cache_set_imu : Cache F → Vec3 F → Vec3 F → Cache F
  telemetry_cache_set_imu c acc gyro = record c {
    acc_g = acc;
    gyro_dps = gyro;
    seq = (c.seq + 1) % 2 ^ 32;
  }

  unfoldable pub telemetry_cache_set_tilt : Cache F → Vec3 F → ℕ → Cache F
  telemetry_cache_set_tilt c tilt status = record c {
    tilt_deg = tilt;
    tilt_status = status;
    seq = (c.seq + 1) % 2 ^ 32;
  }

  abbrev write_motor : Cache F → ℕ → Motor → Cache F
  write_motor c idx m = record c {
    motor_tics = put idx m.tics c.motor_tics;
    motor_rpm = put idx m.rpm c.motor_rpm;
    motor_temp_c = put idx m.temperature_c c.motor_temp_c;
    motor_voltage_mv = put idx m.voltage_power_stage_mv c.motor_voltage_mv;
    motor_current_ma = put idx m.current_power_stage_ma c.motor_current_ma;
    seq = (c.seq + 1) % 2 ^ 32;
  }

  unfoldable pub telemetry_cache_set_motor : Cache F → ℤ → Motor → Cache F
  telemetry_cache_set_motor c motor_index m = elim (motor_idx motor_index) [
    | none ↦ c
    | some idx ↦ write_motor c idx m
  ]

  -- `telemetry_cache_get` copies every field out under the mutex. Its caller passes no null
  -- pointer, so the copy is the whole state.
  unfoldable pub telemetry_cache_get : Cache F → Cache F
  telemetry_cache_get c = c
