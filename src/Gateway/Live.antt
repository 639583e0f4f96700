-- ===== src/Gateway/Live.antt =====
-- `telemetry_state_to_json_alloc` of src/app/telemetry_gateway.c: the object that is broadcast.
use telemetry_testbed.Base.{
  ℕ, List, ◌+◌, ◌++◌, codes, Option, none, some, Bool, length, if◌then◌else◌, print_unsigned,
  print_signed,
}
use telemetry_testbed.Types.{Vec3, TelemetryState, Float}
use telemetry_testbed.Json.{Vec3Text, HeadText, MotorText, head_format, motors_format}

module _ (f : Float) where
  open f use {F, print6, print_seconds}

  abbrev pub vec3_text : Vec3 F → Vec3Text
  vec3_text v = record { x = print6 v.x; y = print6 v.y; z = print6 v.z }

  abbrev pub live_head : TelemetryState F → HeadText
  live_head s = record {
    t = print_seconds s.received_at_ns;
    t_ns = print_signed s.received_at_ns;
    seq = print_unsigned s.seq;
    msg_ts_ns = print_unsigned s.msg_timestamp_ns;
    robot_id = s.robot_id;
    imu_id = s.imu_id;
    tilt_id = s.tilt_id;
    tilt_status = print_unsigned s.tilt_status;
    accel = vec3_text s.acc_g;
    gyro = vec3_text s.gyro_dps;
    tilt = vec3_text s.tilt_deg;
  }

  abbrev pub live_motor1 : TelemetryState F → MotorText
  live_motor1 s = record {
    id = s.motor_id.at0;
    tics = print_unsigned s.motor_tics.at0;
    rpm = print_signed s.motor_rpm.at0;
    temperature_c = print_signed s.motor_temperature_c.at0;
    voltage_power_stage_mv = print_signed s.motor_voltage_power_stage_mv.at0;
    current_power_stage_ma = print_signed s.motor_current_power_stage_ma.at0;
  }

  abbrev pub live_motor2 : TelemetryState F → MotorText
  live_motor2 s = record {
    id = s.motor_id.at1;
    tics = print_unsigned s.motor_tics.at1;
    rpm = print_signed s.motor_rpm.at1;
    temperature_c = print_signed s.motor_temperature_c.at1;
    voltage_power_stage_mv = print_signed s.motor_voltage_power_stage_mv.at1;
    current_power_stage_ma = print_signed s.motor_current_power_stage_ma.at1;
  }

  -- The text that the format makes of the sample.
  unfoldable pub live_json : TelemetryState F → List ℕ
  live_json s =
      head_format (live_head s) ++ (motors_format (live_motor1 s) (live_motor2 s) ++ codes "}")

  -- The buffer of one byte more than the text, or -3 where `malloc` fails. `snprintf` does not fail.
  unfoldable pub telemetry_state_to_json_alloc : (ℕ → Bool) → TelemetryState F → Option (List ℕ)
  telemetry_state_to_json_alloc alloc s =
      let json = live_json s in if alloc (length json + 1) then some json else none
