-- ===== src/Sim/Sensors/Threads.antt =====
-- The threads of src/sim/sensors from the connection to the end of the loop, around their rounds. The
-- calls of libmosquitto and the clocks are arguments.
pub mod Schedule
use telemetry_testbed.Base.{ℕ, if◌then◌else◌, List, [], ◌∷◌, ◌++◌, Option, Bool, true, false}
use telemetry_testbed.Base.Int.{ℤ}
use telemetry_testbed.Cache.{Cache}
use telemetry_testbed.Sim.Tick.{Timespec, next_tick}
use telemetry_testbed.Sim.Sensors.{Double, Message, MotorLoop, Round}
use telemetry_testbed.Sim.Sensors.Motor1.{motor1_round}
use telemetry_testbed.Sim.Sensors.Motor2.{motor2_round}
use telemetry_testbed.Sim.Sensors.Imu.{ImuLoop, imu_round}
use telemetry_testbed.Sim.Sensors.Tilt.{TiltLoop, tilt_round}
use telemetry_testbed.Sim.Sensors.Motor1

-- A thread connects, works a round, sleeps until a time, closes the connection, frees its arguments.
-- A round is kept with the cache that it met.
pub data Action (S C : Type 0) : Type 0 where
  connects : Action S C
  works : C → Round S C → Action S C
  sleeps_until : Timespec → Action S C
  closes : Action S C
  frees_args : Action S C

module _ {S C : Type 0} (round : C → S → Round S C) (period_ns : ℕ) where
  -- One entry for each round, up to where `running` is found to be 0: the cache as the other threads
  -- have left it.
  unfoldable pub sensor_loop : Timespec → S → List C → List (Action S C)
  sensor_loop t vars [] = []
  sensor_loop t vars (cache ∷ caches) =
      let r = round cache vars in
      let tick = next_tick t period_ns in
      works cache r ∷ sleeps_until tick ∷ sensor_loop tick r.vars caches

  unfoldable pub sensor_thread : Bool → Timespec → S → List C → List (Action S C)
  unfolding sensor_loop
  sensor_thread connected t vars caches =
      if connected
      then connects ∷ (sensor_loop t vars caches ++ (closes ∷ frees_args ∷ []))
      else frees_args ∷ []

module _ (d : Double) where
  open d use {D, F, ◌⊘◌, num, lround}

  -- `period_ns` of a motor's thread, and the variables of its loop, from the temperature on that the motor starts with.
  unfoldable pub motor_period : D → ℤ
  motor_period asked = lround (num 1000000000 0 ⊘ Motor1.rate d asked)

  unfoldable pub motor_vars : ℕ → D → MotorLoop D
  motor_vars seed temp_c_state = record {
    seed = seed;
    t = num 0 0;
    tick_frac = num 0 0;
    tick_count = 0;
    temp_c_state = temp_c_state;
  }

  -- `rate_hz` as asked for, the period, whether it connects, the clock, the seed, and the rounds.
  unfoldable pub motor1_thread :
      D
      → ℕ
      → Bool
      → Timespec
      → ℕ
      → List (Option (Cache F))
      → List (Action (MotorLoop D) (Option (Cache F)))
  unfolding sensor_thread motor_vars
  motor1_thread asked period_ns connected t seed caches =
      sensor_thread (motor1_round d asked) period_ns connected t (motor_vars seed (num 320 1))
        caches

  unfoldable pub motor2_thread :
      D
      → ℕ
      → Bool
      → Timespec
      → ℕ
      → List (Option (Cache F))
      → List (Action (MotorLoop D) (Option (Cache F)))
  unfolding sensor_thread motor_vars
  motor2_thread asked period_ns connected t seed caches =
      sensor_thread (motor2_round d asked) period_ns connected t (motor_vars seed (num 310 1))
        caches

  unfoldable pub imu_thread :
      D
      → ℕ
      → Bool
      → Timespec
      → ℕ
      → List (Option (Cache F))
      → List (Action (ImuLoop D) (Option (Cache F)))
  unfolding sensor_thread
  imu_thread rate_hz period_ns connected t seed caches =
      sensor_thread (imu_round d rate_hz) period_ns connected t
        (record { seed = seed; t = num 0 0 }) caches

  unfoldable pub tilt_thread :
      D
      → ℕ
      → Bool
      → Timespec
      → ℕ
      → List (Option (Cache F))
      → List (Action (TiltLoop D) (Option (Cache F)))
  unfolding sensor_thread
  tilt_thread rate_hz period_ns connected t seed caches =
      sensor_thread (tilt_round d rate_hz) period_ns connected t
        (record { seed = seed; t = num 0 0 }) caches
