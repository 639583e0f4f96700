-- ===== src/Sim/Sensors/Imu.antt =====
-- One round of `imu_thread` in src/sim/sensors/imu_sensor.c, up to the sleep.
use telemetry_testbed.Base.{ℕ, List, [], ◌∷◌, ◌++◌, Option, codes}
use telemetry_testbed.Base.Int.{ℤ}
use telemetry_testbed.Types.{Vec3}
use telemetry_testbed.Pack.{clamp_i16, pack_i16_le}
use telemetry_testbed.Cache.{Cache, telemetry_cache_set_imu}
use telemetry_testbed.Sim.Sensors.{Double, Round, if_cache}

-- Three numbers packed one behind another.
abbrev pub pack_three : ℤ → ℤ → ℤ → List ℕ
pack_three x y z = pack_i16_le x ++ (pack_i16_le y ++ pack_i16_le z)

-- What the loop keeps from round to round.
pub record ImuLoop (D : Type 0) : Type 0 where
  pub seed : ℕ
  pub t : D

module _ (d : Double) where
  open d use {D, F, ◌⊕◌, ◌⊖◌, ◌⊗◌, ◌⊘◌, num, of_ℕ, pi, sin, cos, lround, to_float, rand_max, rand_r}

  abbrev pub frand_unit : ℕ → D × ℕ
  frand_unit seed = let (r, seed') = rand_r seed in (of_ℕ r ⊘ (of_ℕ rand_max ⊕ num 10 1), seed')

  abbrev pub noise : ℕ → D → D × ℕ
  noise seed sigma = let (r, seed') = frand_unit seed in (sigma ⊗ (r ⊖ num 5 1) ⊗ num 20 1, seed')

  abbrev pub acc_lsb_per_g : D
  acc_lsb_per_g = num 54610 1

  abbrev pub gyro_lsb_per_dps : D
  gyro_lsb_per_dps = num 2624 1

  -- `2.0 * M_PI * f * t`.
  abbrev pub angle : D → D → D
  angle f t = num 20 1 ⊗ pi ⊗ f ⊗ t

  abbrev pub acceleration : D → ℕ → Vec3 D × ℕ
  acceleration t seed =
      let (nx, seed₁) = noise seed (num 2 2) in
      let (ny, seed₂) = noise seed₁ (num 2 2) in
      let (nz, seed₃) = noise seed₂ (num 2 2) in
      (
        record {
          x = num 2 1 ⊗ sin (angle (num 50 2) t) ⊕ nx;
          y = num 2 1 ⊗ cos (angle (num 40 2) t) ⊕ ny;
          z = num 10 1 ⊕ num 5 2 ⊗ sin (angle (num 20 2) t) ⊕ nz;
        },
        seed₃,
      )

  abbrev pub rotation : D → ℕ → Vec3 D × ℕ
  rotation t seed =
      let (nx, seed₁) = noise seed (num 5 1) in
      let (ny, seed₂) = noise seed₁ (num 5 1) in
      let (nz, seed₃) = noise seed₂ (num 5 1) in
      (
        record {
          x = num 100 1 ⊗ sin (angle (num 30 2) t) ⊕ nx;
          y = num 80 1 ⊗ cos (angle (num 22 2) t) ⊕ ny;
          z = num 50 1 ⊗ sin (angle (num 15 2) t) ⊕ nz;
        },
        seed₃,
      )

  -- A vector in counts, packed.
  abbrev pub counts : D → Vec3 D → List ℕ
  counts scale v =
      pack_three (clamp_i16 (lround (v.x ⊗ scale))) (clamp_i16 (lround (v.y ⊗ scale)))
        (clamp_i16 (lround (v.z ⊗ scale)))

  abbrev pub floats : Vec3 D → Vec3 F
  floats v = record { x = to_float v.x; y = to_float v.y; z = to_float v.z }

  -- A round, with the cache if there is one.
  unfoldable pub imu_round : D → Option (Cache F) → ImuLoop D → Round (ImuLoop D) (Option (Cache F))
  imu_round rate_hz cache s =
      let (acc, seed₁) = acceleration s.t s.seed in
      let (gyro, seed₂) = rotation s.t seed₁ in
      record {
        vars = record { seed = seed₂; t = s.t ⊕ num 10 1 ⊘ rate_hz };
        cache = if_cache (λ c. telemetry_cache_set_imu c (floats acc) (floats gyro)) cache;
        messages =
            record { topic = codes "/robot/sensors/imu0/acc"; payload = counts acc_lsb_per_g acc }
            ∷ record {
              topic = codes "/robot/sensors/imu0/gyro";
              payload = counts gyro_lsb_per_dps gyro;
            }
            ∷ [];
      }
