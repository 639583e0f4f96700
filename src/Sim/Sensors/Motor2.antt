-- ===== src/Sim/Sensors/Motor2.antt =====
-- One round of `motor2_thread` in src/sim/sensors/motor2_sensor.c. The thread sleeps behind the
-- round, on the tick of Sim.Tick.
use telemetry_testbed.Base.{
  ℕ, ◌+◌, ◌%◌, ◌^◌, List, [], ◌∷◌, Option, Bool, ◌&&◌, if◌then◌else◌, codes,
}
use telemetry_testbed.Base.Int.{pos}
use telemetry_testbed.Pack.{clamp_i16, clamp_i32_ll, pack_i16_le, pack_u32_le, pack_i32_le}
use telemetry_testbed.Cache.{Cache, Motor, telemetry_cache_set_motor}
use telemetry_testbed.Sim.Sensors.{Double, Message, MotorLoop, Round, if_cache}

-- The readings, as the cache takes them.
abbrev pub messages : Motor → List Message
messages m =
    record { topic = codes "/robot/sensors/motor2/tics"; payload = pack_u32_le m.tics }
    ∷ record { topic = codes "/robot/sensors/motor2/rpm"; payload = pack_i16_le m.rpm }
    ∷ record {
      topic = codes "/robot/sensors/motor2/temperature";
      payload = pack_i16_le m.temperature_c;
    }
    ∷ record {
      topic = codes "/robot/sensors/motor2/voltage_power_stage";
      payload = pack_i32_le m.voltage_power_stage_mv;
    }
    ∷ record {
      topic = codes "/robot/sensors/motor2/current_power_stage";
      payload = pack_i32_le m.current_power_stage_ma;
    }
    ∷ []

module _ (d : Double) where
  open d use {
    D, F, ◌⊕◌, ◌⊖◌, ◌⊗◌, ◌⊘◌, num, of_ℕ, pi, sin, fabs, floor, fmod, less, lround, to_u32, rand_max,
    rand_r,
  }

  abbrev pub frand_unit : ℕ → D × ℕ
  frand_unit seed = let (r, seed') = rand_r seed in (of_ℕ r ⊘ (of_ℕ rand_max ⊕ num 10 1), seed')

  abbrev pub noise : ℕ → D → D × ℕ
  noise seed amp = let (r, seed') = frand_unit seed in ((r ⊖ num 5 1) ⊗ num 20 1 ⊗ amp, seed')

  -- `if(v < lo) v = lo;` and `if(v > hi) v = hi;`
  abbrev pub at_least : D → D → D
  at_least lo v = if less v lo then lo else v

  abbrev pub at_most : D → D → D
  at_most hi v = if less hi v then hi else v

  -- `2.0 * M_PI * f * t`.
  abbrev pub angle : D → D → D
  angle f t = num 20 1 ⊗ pi ⊗ f ⊗ t

  -- The rate asked for, or 50 Hz.
  abbrev pub rate : D → D
  rate asked = if less (num 0 1) asked then asked else num 500 1

  abbrev pub drive : D → ℕ → D × ℕ
  drive t seed =
      let (n, seed') = noise seed (num 2 2) in
      let cmd =
        num 66 2
        ⊕ num 22 2
        ⊗ sin (angle (num 10 2) t ⊕ num 10 1)
        ⊕ num 8 2
        ⊗ sin (angle (num 29 2) t ⊕ num 21 1)
        ⊕ n in
      (at_most (num 100 2) (at_least (num 3 2) cmd), seed')

  abbrev pub loaded : D → Bool
  loaded t = let w = fmod (t ⊕ num 40 1) (num 190 1) in less (num 92 1) w && less w (num 101 1)

  abbrev pub rpm : D → D → ℕ → D × ℕ
  rpm drive_cmd t seed =
      let (n, seed') = noise seed (num 90 1) in
      let steering_bias = num 10 1 ⊕ num 7 2 ⊗ sin (angle (num 5 2) t ⊕ num 4 1) in
      let base = (num 6500 1 ⊕ num 17500 1 ⊗ drive_cmd) ⊗ steering_bias in
      let v = at_least (num 0 1) (base ⊕ num 450 1 ⊗ sin (angle (num 6 1) t ⊕ num 13 1) ⊕ n) in
      ((if loaded t then v ⊗ num 70 2 else v), seed')

  abbrev pub voltage : D → D → ℕ → D × ℕ
  voltage drive_cmd t seed =
      let (n, seed') = noise seed (num 300 1) in
      let v =
        num 239000 1
        ⊕ num 3000 1
        ⊗ sin (angle (num 16 2) t ⊕ num 9 1)
        ⊖ num 2200 1
        ⊗ drive_cmd
        ⊕ n in
      (at_most (num 260000 1) (at_least (num 208000 1) v), seed')

  abbrev pub current : D → D → ℕ → D × ℕ
  current drive_cmd t seed =
      let (n, seed') = noise seed (num 750 1) in
      let i =
        num 13000 1
        ⊕ num 39000 1
        ⊗ drive_cmd
        ⊕ num 4500 1
        ⊗ fabs (sin (angle (num 21 2) t ⊕ num 1 1))
        ⊕ n in
      (at_least (num 0 1) (if loaded t then i ⊕ num 14000 1 else i), seed')

  abbrev pub temperature : D → D → D → ℕ → D × ℕ
  temperature i_ps_ma rpm_motor temp seed =
      let (n, seed') = noise seed (num 6 2) in
      let target = num 270 1 ⊕ num 70 4 ⊗ i_ps_ma ⊕ num 25 4 ⊗ rpm_motor in
      let next = temp ⊕ ((target ⊖ temp) ⊗ num 28 3 ⊕ n) in
      (at_most (num 980 1) (at_least (num 200 1) next), seed')

  -- A round, with the cache if there is one.
  unfoldable pub motor2_round :
      D → Option (Cache F) → MotorLoop D → Round (MotorLoop D) (Option (Cache F))
  motor2_round asked cache s =
      let rate_hz = rate asked in
      let t = s.t in
      let dt = num 10 1 ⊘ rate_hz in
      let (drive_cmd, seed₁) = drive t s.seed in
      let (rpm_motor, seed₂) = rpm drive_cmd t seed₁ in
      let tick_frac = s.tick_frac ⊕ rpm_motor ⊘ num 600 1 ⊗ num 163840 1 ⊗ dt in
      let ticks_inc = to_u32 (floor tick_frac) in
      let tick_count = (s.tick_count + ticks_inc) % 2 ^ 32 in
      let (v_ps_mv, seed₃) = voltage drive_cmd t seed₂ in
      let (i_ps_ma, seed₄) = current drive_cmd t seed₃ in
      let (temp_c_state, seed₅) = temperature i_ps_ma rpm_motor s.temp_c_state seed₄ in
      let m : Motor = record {
        tics = tick_count;
        rpm = clamp_i16 (lround rpm_motor);
        temperature_c = clamp_i16 (lround temp_c_state);
        voltage_power_stage_mv = clamp_i32_ll (lround v_ps_mv);
        current_power_stage_ma = clamp_i32_ll (lround i_ps_ma);
      } in
      record {
        vars = record {
          seed = seed₅;
          t = t ⊕ dt;
          tick_frac = tick_frac ⊖ of_ℕ ticks_inc;
          tick_count = tick_count;
          temp_c_state = temp_c_state;
        };
        cache = if_cache (λ c. telemetry_cache_set_motor c (pos 2) m) cache;
        messages = messages m;
      }
