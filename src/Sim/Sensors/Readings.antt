-- ===== src/Sim/Sensors/Readings.antt =====
-- What a subscriber that knows the formats reads in a round of the sensors of src/sim/sensors, against
-- what the round puts into the cache.
use telemetry_testbed.Base.{
  ℕ, ◌%◌, ◌^◌, ◌<◌, List, [], ◌∷◌, ◌++◌, Option, some, if◌then◌else◌, codes, text_eq, ◌≡◌, refl,
  sym, ap, subst, ◌∙◌, arith,
}
use telemetry_testbed.Base.Int.{ℤ, pos}
use telemetry_testbed.Base.Words.{IsI16, IsI32, signed}
use telemetry_testbed.Types.{MotorState}
use telemetry_testbed.Sim.Publisher.{PubArgs, build_message}
use telemetry_testbed.Pack.{clamp_i16, clamp_i32_ll}
use telemetry_testbed.Pack.RoundTrip.{read_le, read-pack, clamp_i16-nearest, clamp_i32_ll-nearest}
use telemetry_testbed.Cache.{Cache, Motor, telemetry_cache_set_motor}
use telemetry_testbed.Sim.Sensors.{Double, Message, MotorLoop}
use telemetry_testbed.Sim.Sensors.Motor1
use telemetry_testbed.Sim.Sensors.Motor2
use telemetry_testbed.Sim.Sensors.Motor1.{motor1_round}
use telemetry_testbed.Sim.Sensors.Motor2.{motor2_round}

-- A reading of each format.
abbrev pub read_i16 : List ℕ → ℤ
read_i16 bs = signed (2 ^ 15) (read_le bs)

abbrev pub read_i32 : List ℕ → ℤ
read_i32 bs = signed (2 ^ 31) (read_le bs)

-- The payload of the first message on a topic; nothing on no message.
abbrev pub payload_on : List ℕ → List Message → List ℕ
payload_on topic [] = []
payload_on topic (m ∷ ms) = if text_eq m.topic topic then m.payload else payload_on topic ms

-- The readings on the five topics of a motor.
abbrev pub readings : List ℕ → List Message → Motor
readings motor ms = record {
  tics = read_le (payload_on (motor ++ codes "/tics") ms);
  rpm = read_i16 (payload_on (motor ++ codes "/rpm") ms);
  temperature_c = read_i16 (payload_on (motor ++ codes "/temperature") ms);
  voltage_power_stage_mv = read_i32 (payload_on (motor ++ codes "/voltage_power_stage") ms);
  current_power_stage_ma = read_i32 (payload_on (motor ++ codes "/current_power_stage") ms);
}

-- The readings are values of their C types.
abbrev pub InRange : Motor → Type 0
InRange m =
    (m.tics < 2 ^ 32)
    × IsI16 m.rpm
    × IsI16 m.temperature_c
    × IsI32 m.voltage_power_stage_mv
    × IsI32 m.current_power_stage_ma

motor1-readings :
    (m : Motor) → InRange m → readings (codes "/robot/sensors/motor1") (Motor1.messages m) ≡ m
unfolding text_eq
motor1-readings m (ht, hr, hc, hv, hi) =
    let (r, v, _, t) = read-pack m.rpm m.voltage_power_stage_mv 0 m.tics hr hv (omega arith) ht in
    let (c, i, _, _) =
      read-pack m.temperature_c m.current_power_stage_ma 0 0 hc hi (omega arith) (omega arith) in
    cc (r, v, t, c, i)

motor2-readings :
    (m : Motor) → InRange m → readings (codes "/robot/sensors/motor2") (Motor2.messages m) ≡ m
unfolding text_eq
motor2-readings m (ht, hr, hc, hv, hi) =
    let (r, v, _, t) = read-pack m.rpm m.voltage_power_stage_mv 0 m.tics hr hv (omega arith) ht in
    let (c, i, _, _) =
      read-pack m.temperature_c m.current_power_stage_ma 0 0 hc hi (omega arith) (omega arith) in
    cc (r, v, t, c, i)

abbrev clamped : ℕ → ℤ → ℤ → ℤ → ℤ → Motor
clamped ticks rpm temp v i = record {
  tics = ticks % 2 ^ 32;
  rpm = clamp_i16 rpm;
  temperature_c = clamp_i16 temp;
  voltage_power_stage_mv = clamp_i32_ll v;
  current_power_stage_ma = clamp_i32_ll i;
}

clamped-InRange : (ticks : ℕ) (rpm temp v i : ℤ) → InRange (clamped ticks rpm temp v i)
clamped-InRange ticks rpm temp v i = (
  omega arith,
  (clamp_i16-nearest rpm (pos 0) (omega arith)).0,
  (clamp_i16-nearest temp (pos 0) (omega arith)).0,
  (clamp_i32_ll-nearest v (pos 0) (omega arith)).0,
  (clamp_i32_ll-nearest i (pos 0) (omega arith)).0,
)

module _ (d : Double) where
  open d use {D, F}

  motor1_reading :
      (asked : D) (c : Cache F) (s : MotorLoop D)
      → (m : Motor) × InRange m
        × ((motor1_round d asked (some c) s).messages ≡ Motor1.messages m)
        × ((motor1_round d asked (some c) s).cache ≡ some (telemetry_cache_set_motor c (pos 1) m))
  unfolding motor1_round
  motor1_reading asked c s = (_, clamped-InRange _ _ _ _ _, refl, refl)

  motor2_reading :
      (asked : D) (c : Cache F) (s : MotorLoop D)
      → (m : Motor) × InRange m
        × ((motor2_round d asked (some c) s).messages ≡ Motor2.messages m)
        × ((motor2_round d asked (some c) s).cache ≡ some (telemetry_cache_set_motor c (pos 2) m))
  unfolding motor2_round
  motor2_reading asked c s = (_, clamped-InRange _ _ _ _ _, refl, refl)

  -- A motor as a subscriber to its five topics sees it.
  abbrev pub seen : List ℕ → Motor → Option MotorState
  seen id m = some (record {
    motor_id = some id;
    tics = m.tics;
    rpm = m.rpm;
    temperature_c = m.temperature_c;
    voltage_power_stage_mv = m.voltage_power_stage_mv;
    current_power_stage_ma = m.current_power_stage_ma;
  })

  snapshot_motors :
      (a : PubArgs) (now : ℕ) (c : Cache F) (m : Motor)
      → let c₁ = telemetry_cache_set_motor c (pos 1) m in
        let c₂ = telemetry_cache_set_motor c (pos 2) m in
        ((build_message a now c₁).motor1 ≡ seen a.motor1_id m)
        × ((build_message a now c₁).motor2 ≡ (build_message a now c).motor2)
        × ((build_message a now c₂).motor2 ≡ seen a.motor2_id m)
        × ((build_message a now c₂).motor1 ≡ (build_message a now c).motor1)
  unfolding build_message telemetry_cache_set_motor
  snapshot_motors a now c m = (refl, refl, refl, refl)

  -- After a round of a motor's thread, a subscriber that decodes the five payloads of the round reads
  -- just what the next snapshot says of that motor, in the ranges of the C types, and the snapshot says
  -- of the other motor what it said before. This holds for either motor.
  pub motor_rounds-agree :
      (asked : D) (a : PubArgs) (now : ℕ) (c : Cache F) (s : MotorLoop D)
      → let r₁ = motor1_round d asked (some c) s in
        let r₂ = motor2_round d asked (some c) s in
        let m₁ = readings (codes "/robot/sensors/motor1") r₁.messages in
        let m₂ = readings (codes "/robot/sensors/motor2") r₂.messages in
        ((c₁ : Cache F) × (r₁.cache ≡ some c₁)
          × InRange m₁
          × ((build_message a now c₁).motor1 ≡ seen a.motor1_id m₁)
          × ((build_message a now c₁).motor2 ≡ (build_message a now c).motor2))
        × ((c₂ : Cache F) × (r₂.cache ≡ some c₂)
            × InRange m₂
            × ((build_message a now c₂).motor2 ≡ seen a.motor2_id m₂)
            × ((build_message a now c₂).motor1 ≡ (build_message a now c).motor1))
  motor_rounds-agree asked a now c s =
      let (m, hm, sent, kept) = motor1_reading asked c s in
      let (n, hn, sent', kept') = motor2_reading asked c s in
      let e = ap (readings (codes "/robot/sensors/motor1")) sent ∙ motor1-readings m hm in
      let e' = ap (readings (codes "/robot/sensors/motor2")) sent' ∙ motor2-readings n hn in
      let (own, other, _, _) = snapshot_motors a now c m in
      let (_, _, own', other') = snapshot_motors a now c n in
      (
        (
          telemetry_cache_set_motor c (pos 1) m,
          kept,
          subst InRange (sym e) hm,
          own ∙ ap (seen a.motor1_id) (sym e),
          other,
        ),
        (
          telemetry_cache_set_motor c (pos 2) n,
          kept',
          subst InRange (sym e') hn,
          own' ∙ ap (seen a.motor2_id) (sym e'),
          other',
        ),
      )
