-- ===== src/Db/History/Replay.antt =====
-- A sample that was stored and read back by src/infra/persistence/db_sqlite.c prints as
-- src/app/telemetry_gateway.c broadcast it.
use telemetry_testbed.Base.{
  ℕ, ◌^◌, ◌<◌, ◌≡◌, refl, ap, ◌∙◌, true, false, arith, print_signed, print_unsigned,
}
use telemetry_testbed.Base.Int.{ℤ, pos}
use telemetry_testbed.Base.Words.{IsI32, int_of, int64_of, int_cut, int_cut_lem, int_of-IsI32}
use telemetry_testbed.Types.{Vec3, Pair, TelemetryState, Float}
use telemetry_testbed.Db.Row.{real, select, state_row, bind_double}
use telemetry_testbed.Db.History.{row_head, row_motor, has_motors}
use telemetry_testbed.Db.History.Contents.{sample_json}
use telemetry_testbed.Gateway.Live.{live_json, live_head, live_motor1, live_motor2}

int_of-small : (u : ℕ) → u < 2 ^ 31 → int_of u ≡ pos u
unfolding int_of
int_of-small u h = ground arith

int64_of-small : (u : ℕ) → u < 2 ^ 63 → int64_of u ≡ pos u
unfolding int64_of
int64_of-small u h = ground arith

print_signed-pos : (u : ℕ) → print_signed (pos u) ≡ print_unsigned u
unfolding print_signed
print_signed-pos u = refl

int_back : (u : ℕ) → u < 2 ^ 31 → print_signed (int_cut (int_of u)) ≡ print_unsigned u
int_back u h =
    ap print_signed (int_cut_lem (int_of u) (int_of-IsI32 u) ∙ int_of-small u h)
    ∙ print_signed-pos u

int64_back : (u : ℕ) → u < 2 ^ 63 → print_signed (int64_of u) ≡ print_unsigned u
int64_back u h = ap print_signed (int64_of-small u h) ∙ print_signed-pos u

module _ (f : Float) where
  open f use {F, is_nan, kept}

  -- A reading that a REAL column gives back as it is: no NaN, and not -0.0.
  abbrev IsKept : F → Type 0
  IsKept x = (is_nan x ≡ false) × (kept x ≡ x)

  abbrev AreKept : Vec3 F → Type 0
  AreKept v = IsKept v.x × IsKept v.y × IsKept v.z

  abbrev BothI32 : Pair ℤ → Type 0
  BothI32 p = IsI32 p.at0 × IsI32 p.at1

  -- The counters and the status fit the signed columns, and no reading is a NaN or -0.0. The
  -- motors' readings are of type int32_t.
  pub record IsStorable (s : TelemetryState F) : Type 0 where
    pub seq_small : s.seq < 2 ^ 31
    pub status_small : s.tilt_status < 2 ^ 31
    pub timestamp_small : s.msg_timestamp_ns < 2 ^ 63
    pub acc_real : AreKept s.acc_g
    pub gyro_real : AreKept s.gyro_dps
    pub tilt_real : AreKept s.tilt_deg
    pub rpm : BothI32 s.motor_rpm
    pub temperature : BothI32 s.motor_temperature_c
    pub voltage : BothI32 s.motor_voltage_power_stage_mv
    pub current : BothI32 s.motor_current_power_stage_ma

  double_back : (x : F) → IsKept x → bind_double f x ≡ real x
  unfolding bind_double
  double_back x (number, same) = rw (number, same)

  select-head :
      (s : TelemetryState F) → IsStorable s → row_head f (select (state_row f s)) ≡ live_head f s
  unfolding row_head select state_row
  select-head s h = ground (
    arith,
    int_back s.seq h.seq_small,
    int_back s.tilt_status h.status_small,
    int64_back s.msg_timestamp_ns h.timestamp_small,
    double_back s.acc_g.x h.acc_real.0,
    double_back s.acc_g.y h.acc_real.1,
    double_back s.acc_g.z h.acc_real.2,
    double_back s.gyro_dps.x h.gyro_real.0,
    double_back s.gyro_dps.y h.gyro_real.1,
    double_back s.gyro_dps.z h.gyro_real.2,
    double_back s.tilt_deg.x h.tilt_real.0,
    double_back s.tilt_deg.y h.tilt_real.1,
    double_back s.tilt_deg.z h.tilt_real.2,
  )

  select-motor1 :
      (s : TelemetryState F)
      → IsStorable s
      → row_motor f (select (state_row f s)) 16 ≡ live_motor1 f s
  unfolding row_motor select state_row
  select-motor1 s h = ground (
    arith,
    print_signed-pos s.motor_tics.at0,
    int_cut_lem s.motor_rpm.at0 h.rpm.0,
    int_cut_lem s.motor_temperature_c.at0 h.temperature.0,
    int_cut_lem s.motor_voltage_power_stage_mv.at0 h.voltage.0,
    int_cut_lem s.motor_current_power_stage_ma.at0 h.current.0,
  )

  select-motor2 :
      (s : TelemetryState F)
      → IsStorable s
      → row_motor f (select (state_row f s)) 22 ≡ live_motor2 f s
  unfolding row_motor select state_row
  select-motor2 s h = ground (
    arith,
    print_signed-pos s.motor_tics.at1,
    int_cut_lem s.motor_rpm.at1 h.rpm.1,
    int_cut_lem s.motor_temperature_c.at1 h.temperature.1,
    int_cut_lem s.motor_voltage_power_stage_mv.at1 h.voltage.1,
    int_cut_lem s.motor_current_power_stage_ma.at1 h.current.1,
  )

  select-has_motors : (s : TelemetryState F) → has_motors f (select (state_row f s)) ≡ true
  unfolding has_motors select state_row
  select-has_motors s = refl

  -- Let a sample have counters and a status below 2 ^ 31, a timestamp below 2 ^ 63, and no
  -- reading that is a NaN or -0.0. Then the history query gives back, of the row that the insert made
  -- of it, the very text that was broadcast live.
  pub replay-live :
      (s : TelemetryState F) → IsStorable s → sample_json f (select (state_row f s)) ≡ live_json f s
  unfolding sample_json live_json
  replay-live s h =
      ground (arith, select-has_motors s, select-head s h, select-motor1 s h, select-motor2 s h)
