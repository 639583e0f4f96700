-- ===== src/Gateway/Message.antt =====
-- `safe_copy` and the part of `on_message` of src/app/telemetry_gateway.c that turns a decoded
-- Protobuf message into a sample.
pub mod Names
use telemetry_testbed.Base.{
  ℕ, zero, suc, ◌-◌, ◌%◌, ◌^◌, List, [], ◌∷◌, Option, none, some, Bool, true, false, codes,
  if◌then◌else◌, length, take,
}
use telemetry_testbed.Base.Int.{ℤ, pos}
use telemetry_testbed.Types.{
  Vec3, Pair, put, TelemetryState, Header, MotorState, StateMessage, Float,
}

abbrev pub telemetry_topic_state : List ℕ
telemetry_topic_state = codes "/robot/v1/telemetry/state"

-- `(src && src[0]) ? src : fallback`, and "" for a null pointer.
abbrev pub chosen : Option (List ℕ) → Option (List ℕ) → List ℕ
chosen (some (c ∷ text)) fallback = c ∷ text
chosen (some []) none = []
chosen (some []) (some text) = text
chosen none none = []
chosen none (some text) = text

-- What `dst` holds afterwards: `snprintf` cuts the text to `cap - 1` bytes.
unfoldable pub safe_copy : List ℕ → ℕ → Option (List ℕ) → Option (List ℕ) → List ℕ
safe_copy dst zero src fallback = dst
safe_copy dst (suc room) src fallback = take room (chosen src fallback)

module _ (f : Float) where
  open f use {F, nought}

  abbrev origin : Vec3 F
  origin = record { x = nought; y = nought; z = nought }

  abbrev zeros : Pair ℤ
  zeros = record { at0 = pos 0; at1 = pos 0 }

  -- `memset` to zero, the time of reception, the topic and the default names.
  unfoldable pub default_state : ℤ → TelemetryState F
  default_state now = record {
    received_at_ns = now;
    msg_timestamp_ns = 0;
    seq = 0;
    robot_id = safe_copy [] 64 none (some (codes "robot"));
    imu_id = safe_copy [] 32 none (some (codes "imu0"));
    tilt_id = safe_copy [] 32 none (some (codes "tilt0"));
    acc_g = origin;
    gyro_dps = origin;
    tilt_deg = origin;
    tilt_status = 0;
    motor_id = record {
      at0 = safe_copy [] 32 none (some (codes "motor1"));
      at1 = safe_copy [] 32 none (some (codes "motor2"));
    };
    motor_tics = record { at0 = 0; at1 = 0 };
    motor_rpm = zeros;
    motor_temperature_c = zeros;
    motor_voltage_power_stage_mv = zeros;
    motor_current_power_stage_ma = zeros;
    topic = some telemetry_topic_state;
    raw = none;
    raw_len = 0;
  }

  unfoldable pub with_header : Option Header → TelemetryState F → TelemetryState F
  with_header none s = s
  with_header (some h) s = record s {
    seq = h.seq;
    msg_timestamp_ns = h.timestamp_ns;
    robot_id = safe_copy s.robot_id 64 h.robot_id (some (codes "robot"));
  }

  abbrev present : Option (Vec3 F) → Vec3 F → Vec3 F
  present none old = old
  present (some v) old = v

  -- The names of the IMU and the tilt sensor, the three vectors and the tilt status.
  unfoldable pub with_sensors : StateMessage F → TelemetryState F → TelemetryState F
  with_sensors st s = record s {
    imu_id = safe_copy s.imu_id 32 st.imu_id (some (codes "imu0"));
    tilt_id = safe_copy s.tilt_id 32 st.tilt_id (some (codes "tilt0"));
    acc_g = present st.acc_g s.acc_g;
    gyro_dps = present st.gyro_dps s.gyro_dps;
    tilt_deg = present st.tilt_deg s.tilt_deg;
    tilt_status = st.tilt_status;
  }

  -- The block for `motor1` (index 0) and the one for `motor2` (index 1).
  unfoldable pub with_motor : ℕ → List ℕ → Option MotorState → TelemetryState F → TelemetryState F
  with_motor i fallback none s = s
  with_motor i fallback (some m) s = record s {
    motor_id = put i (safe_copy [] 32 m.motor_id (some fallback)) s.motor_id;
    motor_tics = put i m.tics s.motor_tics;
    motor_rpm = put i m.rpm s.motor_rpm;
    motor_temperature_c = put i m.temperature_c s.motor_temperature_c;
    motor_voltage_power_stage_mv = put i m.voltage_power_stage_mv s.motor_voltage_power_stage_mv;
    motor_current_power_stage_ma = put i m.current_power_stage_ma s.motor_current_power_stage_ma;
  }

  -- The copy of the payload, which `payload` gives with its length; `alloc` is whether `malloc`
  -- succeeds.
  unfoldable pub with_raw : Bool → List ℕ → TelemetryState F → TelemetryState F
  with_raw alloc [] s = s
  with_raw true (b ∷ bs) s = record s { raw = some (b ∷ bs); raw_len = length (b ∷ bs) % 2 ^ 32 }
  with_raw false (b ∷ bs) s = record s { raw_len = 0 }

  unfoldable pub decode_sample : ℤ → Bool → List ℕ → StateMessage F → TelemetryState F
  decode_sample now alloc payload st = with_raw alloc payload (
      with_motor 1 (codes "motor2") st.motor2 (
        with_motor 0 (codes "motor1") st.motor1
          (with_sensors st (with_header st.header (default_state now)))))
