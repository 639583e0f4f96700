-- ===== src/Examples/Sample.antt =====
-- Concrete arguments for the runs: readings are whole numbers, and memory does not run out.
use telemetry_testbed.Base.{
  ℕ, [], ◌++◌, some, none, Bool, true, false, codes, print_unsigned, print_signed,
}
use telemetry_testbed.Base.Int.{pos, negsuc}
use telemetry_testbed.Types.{Vec3, TelemetryState, Float, StateMessage}

abbrev pub plenty : ℕ → Bool
plenty n = true

abbrev pub whole : Float
whole = record {
  F = ℕ;
  nought = 0;
  is_nan = λ x. false;
  kept = λ x. x;
  print6 = λ x. print_unsigned x ++ codes ".000000";
  print_seconds = print_signed;
}

abbrev pub level : Vec3 ℕ
level = record { x = 0; y = 0; z = 1 }

abbrev pub parked : TelemetryState ℕ
parked = record {
  received_at_ns = pos 1700000000;
  msg_timestamp_ns = 1699999999;
  seq = 41;
  robot_id = codes "robot_sim";
  imu_id = codes "imu0";
  tilt_id = codes "tilt0";
  acc_g = level;
  gyro_dps = level;
  tilt_deg = level;
  tilt_status = 2;
  motor_id = record { at0 = codes "motor1"; at1 = codes "motor2" };
  motor_tics = record { at0 = 7; at1 = 9 };
  motor_rpm = record { at0 = pos 1200; at1 = negsuc 4 };
  motor_temperature_c = record { at0 = pos 32; at1 = pos 31 };
  motor_voltage_power_stage_mv = record { at0 = pos 24000; at1 = pos 23900 };
  motor_current_power_stage_ma = record { at0 = pos 1200; at1 = pos 1300 };
  topic = none;
  raw = none;
  raw_len = 0;
}

abbrev pub moving : TelemetryState ℕ
moving = record parked { seq = 42; tilt_status = 0 }

-- A message without header, vectors and motors.
abbrev pub bare : StateMessage ℕ
bare = record {
  header = none;
  imu_id = some (codes "a name that is longer than thirty-one bytes");
  acc_g = none;
  gyro_dps = none;
  tilt_id = some [];
  tilt_deg = none;
  tilt_status = 5;
  motor1 = none;
  motor2 = none;
}
