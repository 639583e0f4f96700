-- ===== src/Sim/Publisher.antt =====
-- The message that `telemetry_pub_thread` of src/sim/telemetry_state_pub.c builds in each round,
-- with the names that `telemetry_state_pub_start` sets.
pub mod Snapshot
pub mod Thread
use telemetry_testbed.Base.{ℕ, List, Option, some, codes}
use telemetry_testbed.Types.{StateMessage}
use telemetry_testbed.Cache.{Cache, telemetry_cache_get}

pub record PubArgs : Type 0 where
  pub robot_id : List ℕ
  pub imu_id : List ℕ
  pub tilt_id : List ℕ
  pub motor1_id : List ℕ
  pub motor2_id : List ℕ

unfoldable pub start_args : PubArgs
start_args = record {
  robot_id = codes "robot_sim";
  imu_id = codes "imu0";
  tilt_id = codes "tilt0";
  motor1_id = codes "motor1";
  motor2_id = codes "motor2";
}

-- `timestamp_ns` is the reading of the monotonic clock.
unfoldable pub build_message : {F : Type 0} → PubArgs → ℕ → Cache F → StateMessage F
unfolding telemetry_cache_get
build_message a timestamp_ns c =
    let s = telemetry_cache_get c in
    record {
      header =
          some (record { robot_id = some a.robot_id; timestamp_ns = timestamp_ns; seq = s.seq });
      imu_id = some a.imu_id;
      acc_g = some s.acc_g;
      gyro_dps = some s.gyro_dps;
      tilt_id = some a.tilt_id;
      tilt_deg = some s.tilt_deg;
      tilt_status = s.tilt_status;
      motor1 = some (record {
        motor_id = some a.motor1_id;
        tics = s.motor_tics.at0;
        rpm = s.motor_rpm.at0;
        temperature_c = s.motor_temp_c.at0;
        voltage_power_stage_mv = s.motor_voltage_mv.at0;
        current_power_stage_ma = s.motor_current_ma.at0;
      });
      motor2 = some (record {
        motor_id = some a.motor2_id;
        tics = s.motor_tics.at1;
        rpm = s.motor_rpm.at1;
        temperature_c = s.motor_temp_c.at1;
        voltage_power_stage_mv = s.motor_voltage_mv.at1;
        current_power_stage_ma = s.motor_current_ma.at1;
      });
    }
