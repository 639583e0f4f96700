-- ===== src/Sim/Sensors/Motor1.antt =====
-- One round of `motor1_thread` in src/sim/sensors/motor1_sensor.c. The thread sleeps behind the
-- round, on the tick of Sim.Tick.
use telemetry_testbed.Base.{
  ℕ, ◌+◌, ◌%◌, ◌^◌, List, [], ◌∷◌, Option, Bool, ◌&&◌, if◌then◌else◌, codes,
}
use telemetry_testbed.Base.Int.{pos}
use telemetry_testbed.Pack.{clamp_i16, clamp_i32_ll, pack_i16_le, pack_u32_le, pack_i32_le}
use telemetry_testbed.Cache.{Cache, Motor, telemetry_cache_set_motor}
use telemetry_testbed.Sim.Sensors.{Double, Message, MotorLoop, Round, if_cache}

-- The readings, as the cache takes them.
abbrev pub messages : Motor → List Message
messages m =
    record { topic = codes "/robot/sensors/motor1/tics"; payload = pack_u32_le m.tics }
    ∷ record { topic = codes "/robot/sensors/motor1/rpm"; payload = pack_i16_le m.rpm }
    ∷ record {
      topic = codes "/robot/sensors/motor1/temperature";
      payload = pack_i16_le m.temperature_c;
    }
    ∷ record {
      topic = codes "/robot/sensors/motor1/voltage_power_stage";
      payload = pack_i32_le m.voltage_power_stage_mv;
    }
    ∷ record {
      topic = codes "/robot/sensors/motor1/current_power_stage";
      payload = pack_i32_le m.current_power_stage_ma;
    }
    ∷ []

module _ (d : Double) where
  open d use {
    D, F, ◌⊕◌, ◌⊖◌, ◌⊗◌, ◌⊘◌, num, of_ℕ, pi, sin, fabs, floor, fmod, less, lround, to_u32, rand_max,
    rand_r,
  }

  abbrev pub frand_unit : ℕ → D × ℕ
  frand_unit seed = let (r, seed') = rand_r seed in (of_ℕ r ⊘ (of_ℕ rand_max ⊕ num 10 1), seed')

  abbrev pub noise : ℕ → D → D × ℕ
  noise seed amp = let (r, seed') = frand_unit seed in ((r ⊖ num 5 1) ⊗ num 20 1 ⊗ amp, seed')

  -- `if(v < lo) v = lo;` and `if(v > hi) v = hi;`
  abbrev pub at_least : D → D → D
  at_least lo v = if less v lo then lo else v

  abbrev pub at_most : D → D → D
  at_most hi v = if less hi v then hi else v

  -- `2.0 * M_PI * f * t`.
  abbrev pub angle : D → D → D
  angle f t = num 20 1 ⊗ pi ⊗ f ⊗ t

  -- The rate asked for, or 50 Hz.
  abbrev pub rate : D → D
  rate asked = if less (num 0 1) asked then asked else num 500 1

  abbrev pub drive : D → ℕ → D × ℕ
  drive t seed =
      let (n, seed') = noise seed (num 2 2) in
      let cmd =
        num 70 2
        ⊕ num 20 2
        ⊗ sin (angle (num 9 2) t)
        ⊕ num 10 2
        ⊗ sin (angle (num 23 2) t ⊕ num 8 1)
        ⊕ n in
      (at_most (num 100 2) (at_least (num 5 2) cmd), seed')

  abbrev pub braking : D → Bool
  braking t = let w = fmod t (num 170 1) in less (num 145 1) w && less w (num 152 1)

  abbrev pub rpm : D → D → ℕ → D × ℕ
  rpm drive_cmd t seed =
      let (n, seed') = noise seed (num 80 1) in
      let base = num 7000 1 ⊕ num 17000 1 ⊗ drive_cmd in
      let v = at_least (num 0 1) (base ⊕ num 600 1 ⊗ sin (angle (num 7 1) t) ⊕ n) in
      ((if braking t then v ⊗ num 55 2 else v), seed')

  abbrev pub voltage : D → D → ℕ → D × ℕ
  voltage drive_cmd t seed =
      let (n, seed') = noise seed (num 250 1) in
      let v = num 240000 1 ⊕ num 3500 1 ⊗ sin (angle (num 18 2) t) ⊖ num 1800 1 ⊗ drive_cmd ⊕ n in
      (at_most (num 260000 1) (at_least (num 210000 1) v), seed')

  abbrev pub current : D → D → ℕ → D × ℕ
  current drive_cmd t seed =
      let (n, seed') = noise seed (num 600 1) in
      let i =
        num 12000 1
        ⊕ num 42000 1
        ⊗ drive_cmd
        ⊕ num 3000 1
        ⊗ sin (angle (num 35 2) t ⊕ num 2 1)
        ⊕ n in
      (at_least (num 0 1) (if braking t then i ⊕ num 9000 1 else i), seed')

  abbrev pub temperature : D → D → D → ℕ → D × ℕ
  temperature i_ps_ma rpm_motor temp seed =
      let (n, seed') = noise seed (num 5 2) in
      let target = num 280 1 ⊕ num 65 4 ⊗ i_ps_ma ⊕ num 30 4 ⊗ fabs (rpm_motor ⊖ num 12000 1) in
      let next = temp ⊕ ((target ⊖ temp) ⊗ num 3 2 ⊕ n) in
      (at_most (num 950 1) (at_least (num 200 1) next), seed')

  -- A round, with the cache if there is one.
  unfoldable pub motor1_round :
      D → Option (Cache F) → MotorLoop D → Round (MotorLoop D) (Option (Cache F))
  motor1_round asked cache s =
      let rate_hz = rate asked in
      let t = s.t in
      let dt = num 10 1 ⊘ rate_hz in
      let (drive_cmd, seed₁) = drive t s.seed in
      let (rpm_motor, seed₂) = rpm drive_cmd t seed₁ in
      let tick_frac = s.tick_frac ⊕ rpm_motor ⊘ num 600 1 ⊗ num 163840 1 ⊗ dt in
      let ticks_inc = to_u32 (floor tick_frac) in
      let tick_count = (s.tick_count + ticks_inc) % 2 ^ 32 in
      let (v_ps_mv, seed₃) = voltage drive_cmd t seed₂ in
      let (i_ps_ma, seed₄) = current drive_cmd t seed₃ in
      let (temp_c_state, seed₅) = temperature i_ps_ma rpm_motor s.temp_c_state seed₄ in
      let m : Motor = record {
        tics = tick_count;
        rpm = clamp_i16 (lround rpm_motor);
        temperature_c = clamp_i16 (lround temp_c_state);
        voltage_power_stage_mv = clamp_i32_ll (lround v_ps_mv);
        current_power_stage_ma = clamp_i32_ll (lround i_ps_ma);
      } in
      record {
        vars = record {
          seed = seed₅;
          t = t ⊕ dt;
          tick_frac = tick_frac ⊖ of_ℕ ticks_inc;
          tick_count = tick_count;
          temp_c_state = temp_c_state;
        };
        cache = if_cache (λ c. telemetry_cache_set_motor c (pos 1) m) cache;
        messages = messages m;
      }
