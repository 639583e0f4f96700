-- ===== src/Sim/Sensors/Attitude.antt =====
-- What a subscriber reads in a round of the IMU and of the tilt sensor of src/sim/sensors, against what
-- the snapshot shows.
use telemetry_testbed.Base.{
  ℕ, List, some, codes, text_eq, take, drop, ◌≡◌, refl, sym, ap, ◌∙◌, arith,
}
use telemetry_testbed.Base.Int.{ℤ, pos}
use telemetry_testbed.Base.Words.{IsI16}
use telemetry_testbed.Types.{Vec3}
use telemetry_testbed.Pack.{clamp_i16, pack_i16_le, pack_u16_le}
use telemetry_testbed.Pack.RoundTrip.{read_le, read-pack, clamp_i16-nearest}
use telemetry_testbed.Cache.{Cache, telemetry_cache_set_imu, telemetry_cache_set_tilt}
use telemetry_testbed.Sim.Publisher.{PubArgs, build_message}
use telemetry_testbed.Sim.Sensors.{Double}
use telemetry_testbed.Sim.Sensors.Readings.{read_i16, payload_on}
use telemetry_testbed.Sim.Sensors.Imu.{ImuLoop, imu_round, pack_three}
use telemetry_testbed.Sim.Sensors.Imu
use telemetry_testbed.Sim.Sensors.Tilt.{TiltLoop, tilt_round, pack_tilt}
use telemetry_testbed.Sim.Sensors.Tilt

-- Three int16_t, one behind another.
abbrev pub read_three : List ℕ → Vec3 ℤ
read_three bs = record {
  x = read_i16 (take 2 bs);
  y = read_i16 (take 2 (drop 2 bs));
  z = read_i16 (take 2 (drop 4 bs));
}

abbrev AllI16 : ℤ → ℤ → ℤ → Type 0
AllI16 x y z = IsI16 x × IsI16 y × IsI16 z

read_three-pack :
    (x y z : ℤ) → AllI16 x y z → read_three (pack_three x y z) ≡ record { x = x; y = y; z = z }
unfolding pack_i16_le
read_three-pack x y z (hx, hy, hz) =
    let (ex, _, _, _) = read-pack x (pos 0) 0 0 hx (omega arith) (omega arith) (omega arith) in
    let (ey, _, _, _) = read-pack y (pos 0) 0 0 hy (omega arith) (omega arith) (omega arith) in
    let (ez, _, _, _) = read-pack z (pos 0) 0 0 hz (omega arith) (omega arith) (omega arith) in
    cc (ex, ey, ez)

read_three-tilt :
    (x y z : ℤ)
    → AllI16 x y z
    → (read_three (pack_tilt x y z) ≡ record { x = x; y = y; z = z })
      × (read_le (drop 6 (pack_tilt x y z)) ≡ 0)
unfolding pack_i16_le pack_u16_le read_le
read_three-tilt x y z h = (read_three-pack x y z h, omega arith)

clamped-AllI16 : (x y z : ℤ) → AllI16 (clamp_i16 x) (clamp_i16 y) (clamp_i16 z)
clamped-AllI16 x y z = (
  (clamp_i16-nearest x (pos 0) (omega arith)).0,
  (clamp_i16-nearest y (pos 0) (omega arith)).0,
  (clamp_i16-nearest z (pos 0) (omega arith)).0,
)

module _ (d : Double) where
  open d use {D, F, ◌⊗◌, num, lround, to_float}

  -- A reading in counts of its scale, as an int16_t.
  abbrev pub in_counts : D → Vec3 D → Vec3 ℤ
  in_counts scale v = record {
    x = clamp_i16 (lround (v.x ⊗ scale));
    y = clamp_i16 (lround (v.y ⊗ scale));
    z = clamp_i16 (lround (v.z ⊗ scale));
  }

  abbrev pub floats : Vec3 D → Vec3 F
  floats v = record { x = to_float v.x; y = to_float v.y; z = to_float v.z }

  imu_sent :
      (rate_hz : D) (c : Cache F) (s : ImuLoop D)
      → (acc : Vec3 D) × (gyro : Vec3 D) × (payload_on
            (codes "/robot/sensors/imu0/acc")
            (imu_round d rate_hz (some c) s).messages
          ≡ Imu.counts d (num 54610 1) acc)
        × (payload_on (codes "/robot/sensors/imu0/gyro") (imu_round d rate_hz (some c) s).messages
            ≡ Imu.counts d (num 2624 1) gyro)
        × ((imu_round d rate_hz (some c) s).cache
            ≡ some (telemetry_cache_set_imu c (floats acc) (floats gyro)))
  unfolding imu_round text_eq
  imu_sent rate_hz c s = (_, _, refl, refl, refl)

  tilt_sent :
      (rate_hz : D) (c : Cache F) (s : TiltLoop D)
      → (deg : Vec3 D) × (payload_on
            (codes "/robot/sensors/tilt0/tilt")
            (tilt_round d rate_hz (some c) s).messages
          ≡ pack_tilt (Tilt.count d deg.x) (Tilt.count d deg.y) (Tilt.count d deg.z))
        × ((tilt_round d rate_hz (some c) s).cache
            ≡ some (telemetry_cache_set_tilt c (floats deg) 0))
  unfolding tilt_round text_eq
  tilt_sent rate_hz c s = (_, refl, refl)

  snapshot_imu :
      (a : PubArgs) (now : ℕ) (c : Cache F) (acc gyro deg : Vec3 F)
      → let c₁ = telemetry_cache_set_imu c acc gyro in
        let c₂ = telemetry_cache_set_tilt c deg 0 in
        ((build_message a now c₁).acc_g ≡ some acc)
        × ((build_message a now c₁).gyro_dps ≡ some gyro)
        × ((build_message a now c₂).tilt_deg ≡ some deg)
        × ((build_message a now c₂).tilt_status ≡ 0)
  unfolding build_message telemetry_cache_set_imu telemetry_cache_set_tilt
  snapshot_imu a now c acc gyro deg = (refl, refl, refl, refl)

  -- In a round of the IMU the two payloads carry, three int16_t each, the same acceleration and
  -- rotation that the next snapshot shows as floats: in counts of 1/5461 g and 1/262.4 degree per second,
  -- clamped. In a round of the tilt sensor the payload carries the angles that the next snapshot shows, in
  -- counts of 1/182 degree, clamped, and the snapshot's status.
  pub attitude_rounds-agree :
      (rate_hz : D) (a : PubArgs) (now : ℕ) (c : Cache F) (s : ImuLoop D) (s' : TiltLoop D)
      → let r = imu_round d rate_hz (some c) s in
        let r' = tilt_round d rate_hz (some c) s' in
        let tilted = payload_on (codes "/robot/sensors/tilt0/tilt") r'.messages in
        ((acc : Vec3 D) × (gyro : Vec3 D) × (c₁ : Cache F) × (r.cache ≡ some c₁)
          × ((build_message a now c₁).acc_g ≡ some (floats acc))
          × ((build_message a now c₁).gyro_dps ≡ some (floats gyro))
          × (read_three (payload_on (codes "/robot/sensors/imu0/acc") r.messages)
              ≡ in_counts (num 54610 1) acc)
          × (read_three (payload_on (codes "/robot/sensors/imu0/gyro") r.messages)
              ≡ in_counts (num 2624 1) gyro))
        × ((deg : Vec3 D) × (c₂ : Cache F) × (r'.cache ≡ some c₂)
            × ((build_message a now c₂).tilt_deg ≡ some (floats deg))
            × ((build_message a now c₂).tilt_status ≡ read_le (drop 6 tilted))
            × (read_three tilted ≡ in_counts (num 1820 1) deg))
  attitude_rounds-agree rate_hz a now c s s' =
      let (acc, gyro, sent, sent', kept) = imu_sent rate_hz c s in
      let (deg, sent_deg, kept_deg) = tilt_sent rate_hz c s' in
      let (shown, shown', shown_deg, shown_status) =
        snapshot_imu a now c (floats acc) (floats gyro) (floats deg) in
      let (tilted, status) = read_three-tilt _ _ _ (clamped-AllI16 _ _ _) in
      (
        (
          acc,
          gyro,
          telemetry_cache_set_imu c (floats acc) (floats gyro),
          kept,
          shown,
          shown',
          ap read_three sent ∙ read_three-pack _ _ _ (clamped-AllI16 _ _ _),
          ap read_three sent' ∙ read_three-pack _ _ _ (clamped-AllI16 _ _ _),
        ),
        (
          deg,
          telemetry_cache_set_tilt c (floats deg) 0,
          kept_deg,
          shown_deg,
          shown_status ∙ sym (ap (λ p. read_le (drop 6 p)) sent_deg ∙ status),
          ap read_three sent_deg ∙ tilted,
        ),
      )
