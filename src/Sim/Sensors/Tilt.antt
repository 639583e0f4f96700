-- ===== src/Sim/Sensors/Tilt.antt =====
-- One round of `tilt_thread` in src/sim/sensors/tilt_sensor.c, up to the sleep.
use telemetry_testbed.Base.{ℕ, List, [], ◌∷◌, ◌++◌, Option, codes}
use telemetry_testbed.Base.Int.{ℤ}
use telemetry_testbed.Types.{Vec3}
use telemetry_testbed.Pack.{clamp_i16, pack_i16_le, pack_u16_le}
use telemetry_testbed.Cache.{Cache, telemetry_cache_set_tilt}
use telemetry_testbed.Sim.Sensors.{Double, Round, if_cache}

-- What the loop keeps from round to round.
pub record TiltLoop (D : Type 0) : Type 0 where
  pub seed : ℕ
  pub t : D

abbrev pub status : ℕ
status = 0

abbrev pub pack_tilt : ℤ → ℤ → ℤ → List ℕ
pack_tilt x y z = pack_i16_le x ++ (pack_i16_le y ++ (pack_i16_le z ++ pack_u16_le status))

module _ (d : Double) where
  open d use {D, F, ◌⊕◌, ◌⊖◌, ◌⊗◌, ◌⊘◌, num, of_ℕ, pi, sin, cos, lround, to_float, rand_max, rand_r}

  abbrev pub frand_unit : ℕ → D × ℕ
  frand_unit seed = let (r, seed') = rand_r seed in (of_ℕ r ⊘ (of_ℕ rand_max ⊕ num 10 1), seed')

  abbrev pub noise : ℕ → D → D × ℕ
  noise seed sigma = let (r, seed') = frand_unit seed in (sigma ⊗ (r ⊖ num 5 1) ⊗ num 20 1, seed')

  abbrev pub tilt_lsb_per_deg : D
  tilt_lsb_per_deg = num 1820 1

  -- `2.0 * M_PI * f * t`.
  abbrev pub angle : D → D → D
  angle f t = num 20 1 ⊗ pi ⊗ f ⊗ t

  abbrev pub tilt : D → ℕ → Vec3 D × ℕ
  tilt t seed =
      let (nx, seed₁) = noise seed (num 2 1) in
      let (ny, seed₂) = noise seed₁ (num 2 1) in
      let (nz, seed₃) = noise seed₂ (num 2 1) in
      (
        record {
          x = num 200 1 ⊗ sin (angle (num 10 2) t) ⊕ nx;
          y = num 150 1 ⊗ cos (angle (num 8 2) t) ⊕ ny;
          z = num 50 1 ⊗ sin (angle (num 5 2) t) ⊕ nz;
        },
        seed₃,
      )

  abbrev pub count : D → ℤ
  count v = clamp_i16 (lround (v ⊗ tilt_lsb_per_deg))

  -- A round, with the cache if there is one.
  unfoldable pub tilt_round :
      D → Option (Cache F) → TiltLoop D → Round (TiltLoop D) (Option (Cache F))
  tilt_round rate_hz cache s =
      let (deg, seed') = tilt s.t s.seed in
      let floats : Vec3 F = record { x = to_float deg.x; y = to_float deg.y; z = to_float deg.z } in
      record {
        vars = record { seed = seed'; t = s.t ⊕ num 10 1 ⊘ rate_hz };
        cache = if_cache (λ c. telemetry_cache_set_tilt c floats status) cache;
        messages =
            record {
              topic = codes "/robot/sensors/tilt0/tilt";
              payload = pack_tilt (count deg.x) (count deg.y) (count deg.z);
            }
            ∷ [];
      }
