-- ===== src/Sim/Publisher/Snapshot.antt =====
-- From the simulator's cache to the gateway's sample: src/sim/telemetry_state_pub.c packs, and
-- `on_message` of src/app/telemetry_gateway.c unpacks.
use telemetry_testbed.Base.{
  ℕ, ◌%◌, ◌^◌, ◌≡◌, ◌≢◌, refl, ap, List, [], ◌∷◌, Option, some, true, codes, length,
}
use mathlib.Core.Option
use telemetry_testbed.Base.Int.{ℤ}
use telemetry_testbed.Types.{TelemetryState, StateMessage, Float}
use telemetry_testbed.Cache.{Cache}
use telemetry_testbed.Gateway.Message.{
  telemetry_topic_state, safe_copy, decode_sample, default_state, with_header, with_sensors,
  with_motor, with_raw,
}
use telemetry_testbed.Sim.Publisher.{start_args, build_message}

module _ (f : Float) where
  open f use {F}

  -- The sample that the gateway is meant to make of a snapshot of the cache.
  abbrev pub snapshot : ℤ → ℕ → Cache F → List ℕ → TelemetryState F
  snapshot now timestamp_ns c payload = record {
    received_at_ns = now;
    msg_timestamp_ns = timestamp_ns;
    seq = c.seq;
    robot_id = codes "robot_sim";
    imu_id = codes "imu0";
    tilt_id = codes "tilt0";
    acc_g = c.acc_g;
    gyro_dps = c.gyro_dps;
    tilt_deg = c.tilt_deg;
    tilt_status = c.tilt_status;
    motor_id = record { at0 = codes "motor1"; at1 = codes "motor2" };
    motor_tics = c.motor_tics;
    motor_rpm = c.motor_rpm;
    motor_temperature_c = c.motor_temp_c;
    motor_voltage_power_stage_mv = c.motor_voltage_mv;
    motor_current_power_stage_ma = c.motor_current_ma;
    topic = some telemetry_topic_state;
    raw = some payload;
    raw_len = length payload % 2 ^ 32;
  }

  decode-build :
      (now : ℤ) (timestamp_ns : ℕ) (c : Cache F) (b : ℕ) (bs : List ℕ)
      → decode_sample f now true (b ∷ bs) (build_message start_args timestamp_ns c)
        ≡ snapshot now timestamp_ns c (b ∷ bs)
  unfolding decode_sample default_state with_header with_sensors with_motor with_raw safe_copy
      start_args build_message
  decode-build now timestamp_ns c b bs = refl

  -- Let unpacking undo packing of the publisher's message, and let that not pack to nothing. Then
  -- unpacking what the publisher packed, and decoding it with memory for the payload's copy, gives a
  -- sample in which every reading, the tilt status and `seq` are those of the cache, the timestamp
  -- is the publisher's, the names are its names, none of them cut, and `raw` is the payload.
  pub publish-decode :
      (pack : StateMessage F → List ℕ) (unpack : List ℕ → Option (StateMessage F)) (now : ℤ)
      (timestamp_ns : ℕ) (c : Cache F)
      → let m = build_message start_args timestamp_ns c in
        unpack (pack m) ≡ some m
        → pack m ≢ []
        → Option.map (decode_sample f now true (pack m)) (unpack (pack m))
          ≡ some (snapshot now timestamp_ns c (pack m))
  publish-decode pack unpack now timestamp_ns c back ne =
      rw back (ap some (at_payload (pack (build_message start_args timestamp_ns c)) ne))
    where
      at_payload :
          (payload : List ℕ)
          → payload ≢ []
          → decode_sample f now true payload (build_message start_args timestamp_ns c)
            ≡ snapshot now timestamp_ns c payload
      at_payload [] h = absurd (h refl)
      at_payload (b ∷ bs) h = decode-build now timestamp_ns c b bs
