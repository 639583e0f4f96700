-- ===== src/Cache/Updates.antt =====
-- What a reader of the cache of src/sim/telemetry_cache.c sees after any interleaving of the
-- sensors' updates.
use telemetry_testbed.Base.{
  ℕ, zero, suc, ◌+◌, ◌%◌, ◌^◌, ◌≡◌, refl, none, some, List, [], ◌∷◌, arith,
}
use telemetry_testbed.Base.Int.{ℤ, pos, negsuc}
use telemetry_testbed.Types.{Vec3}
use telemetry_testbed.Cache.{
  Cache, Motor, motor_idx, telemetry_cache_set_imu, telemetry_cache_set_tilt,
  telemetry_cache_set_motor, telemetry_cache_get,
}

-- A call by which a sensor thread writes the cache.
pub data Update (F : Type 0) : Type 0 where
  imu : Vec3 F → Vec3 F → Update F
  tilt : Vec3 F → ℕ → Update F
  motor : ℤ → Motor → Update F

module _ {F : Type 0} where
  unfoldable pub apply : Cache F → Update F → Cache F
  unfolding telemetry_cache_set_imu telemetry_cache_set_tilt telemetry_cache_set_motor
  apply c (imu acc gyro) = telemetry_cache_set_imu c acc gyro
  apply c (tilt t status) = telemetry_cache_set_tilt c t status
  apply c (motor i m) = telemetry_cache_set_motor c i m

  unfoldable pub run : Cache F → List (Update F) → Cache F
  unfolding apply
  run c [] = c
  run c (u ∷ us) = run (apply c u) us

  -- The updates that count: a motor index other than 1 and 2 does not.
  abbrev pub accepted : List (Update F) → ℕ
  accepted [] = 0
  accepted (imu a g ∷ us) = suc (accepted us)
  accepted (tilt t s ∷ us) = suc (accepted us)
  accepted (motor i m ∷ us) = elim (motor_idx i) [ none ↦ accepted us | some k ↦ suc (accepted us) ]

  -- The value that the last update of one kind wrote, or the one from before.
  abbrev pub last_imu : Vec3 F × Vec3 F → List (Update F) → Vec3 F × Vec3 F
  last_imu d [] = d
  last_imu d (imu a g ∷ us) = last_imu (a, g) us
  last_imu d (tilt t s ∷ us) = last_imu d us
  last_imu d (motor i m ∷ us) = last_imu d us

  abbrev pub last_tilt : Vec3 F × ℕ → List (Update F) → Vec3 F × ℕ
  last_tilt d [] = d
  last_tilt d (imu a g ∷ us) = last_tilt d us
  last_tilt d (tilt t s ∷ us) = last_tilt (t, s) us
  last_tilt d (motor i m ∷ us) = last_tilt d us

  abbrev pub last_motor1 : Motor → List (Update F) → Motor
  last_motor1 d [] = d
  last_motor1 d (imu a g ∷ us) = last_motor1 d us
  last_motor1 d (tilt t s ∷ us) = last_motor1 d us
  last_motor1 d (motor (pos (suc zero)) m ∷ us) = last_motor1 m us
  last_motor1 d (motor i m ∷ us) = last_motor1 d us

  abbrev pub last_motor2 : Motor → List (Update F) → Motor
  last_motor2 d [] = d
  last_motor2 d (imu a g ∷ us) = last_motor2 d us
  last_motor2 d (tilt t s ∷ us) = last_motor2 d us
  last_motor2 d (motor (pos (suc (suc zero))) m ∷ us) = last_motor2 m us
  last_motor2 d (motor i m ∷ us) = last_motor2 d us

  -- The readings of one motor, gathered from the arrays.
  abbrev pub motor1 : Cache F → Motor
  motor1 c = record {
    tics = c.motor_tics.at0;
    rpm = c.motor_rpm.at0;
    temperature_c = c.motor_temp_c.at0;
    voltage_power_stage_mv = c.motor_voltage_mv.at0;
    current_power_stage_ma = c.motor_current_ma.at0;
  }

  abbrev pub motor2 : Cache F → Motor
  motor2 c = record {
    tics = c.motor_tics.at1;
    rpm = c.motor_rpm.at1;
    temperature_c = c.motor_temp_c.at1;
    voltage_power_stage_mv = c.motor_voltage_mv.at1;
    current_power_stage_ma = c.motor_current_ma.at1;
  }

  -- After any sequence of updates `seq` has grown by the number of accepted ones, modulo 2 ^ 32.
  seq-run :
      (c : Cache F) (us : List (Update F))
      → (telemetry_cache_get (run c us)).seq % 2 ^ 32 ≡ (c.seq + accepted us) % 2 ^ 32
  unfolding run telemetry_cache_get
  seq-run c [] = omega arith
  seq-run c (imu a g ∷ us) = omega (arith, seq-run (apply c (imu a g)) us)
  seq-run c (tilt t s ∷ us) = omega (arith, seq-run (apply c (tilt t s)) us)
  seq-run c (motor (pos zero) m ∷ us) = seq-run c us
  seq-run c (motor (pos (suc zero)) m ∷ us) =
      omega (arith, seq-run (apply c (motor (pos (suc zero)) m)) us)
  seq-run c (motor (pos (suc (suc zero))) m ∷ us) =
      omega (arith, seq-run (apply c (motor (pos (suc (suc zero))) m)) us)
  seq-run c (motor (pos (suc (suc (suc n)))) m ∷ us) = seq-run c us
  seq-run c (motor (negsuc n) m ∷ us) = seq-run c us

  -- After any sequence of updates a reader gets, of the IMU, of the tilt sensor and of each motor,
  -- the values of the last update of that one, all from the same update, and the values from before
  -- where there was none. The updates of the others and those with a bad motor index do not matter.
  get-run :
      (c : Cache F) (us : List (Update F))
      → let s = telemetry_cache_get (run c us) in
        (◌≡◌ {A = Vec3 F × Vec3 F} (s.acc_g, s.gyro_dps) (last_imu (c.acc_g, c.gyro_dps) us))
        × (◌≡◌ {A = Vec3 F × ℕ}
            (s.tilt_deg, s.tilt_status)
            (last_tilt (c.tilt_deg, c.tilt_status) us))
        × (motor1 s ≡ last_motor1 (motor1 c) us)
        × (motor2 s ≡ last_motor2 (motor2 c) us)
  unfolding run telemetry_cache_get
  get-run c [] = (refl, refl, refl, refl)
  get-run c (imu a g ∷ us) = get-run (apply c (imu a g)) us
  get-run c (tilt t s ∷ us) = get-run (apply c (tilt t s)) us
  get-run c (motor (pos zero) m ∷ us) = get-run c us
  get-run c (motor (pos (suc zero)) m ∷ us) = get-run (apply c (motor (pos (suc zero)) m)) us
  get-run c (motor (pos (suc (suc zero))) m ∷ us) =
      get-run (apply c (motor (pos (suc (suc zero))) m)) us
  get-run c (motor (pos (suc (suc (suc n)))) m ∷ us) = get-run c us
  get-run c (motor (negsuc n) m ∷ us) = get-run c us

  -- After any sequence of updates a reader gets, of the IMU, of the tilt sensor and of each motor,
  -- the values of the last update of that one, all from the same update, and the values from before
  -- where there was none; the updates of the others and those with a bad motor index do not matter.
  -- And `seq` has grown by the number of accepted updates, modulo 2 ^ 32.
  pub get_seq-run :
      (c : Cache F) (us : List (Update F))
      → let s = telemetry_cache_get (run c us) in
        (◌≡◌ {A = Vec3 F × Vec3 F} (s.acc_g, s.gyro_dps) (last_imu (c.acc_g, c.gyro_dps) us))
        × (◌≡◌ {A = Vec3 F × ℕ}
            (s.tilt_deg, s.tilt_status)
            (last_tilt (c.tilt_deg, c.tilt_status) us))
        × (motor1 s ≡ last_motor1 (motor1 c) us)
        × (motor2 s ≡ last_motor2 (motor2 c) us)
        × (s.seq % 2 ^ 32 ≡ (c.seq + accepted us) % 2 ^ 32)
  get_seq-run c us = let (i, t, m₁, m₂) = get-run c us in (i, t, m₁, m₂, seq-run c us)
