-- ===== src/Examples/Sensors.antt =====
-- A round of each sensor of src/sim/sensors, with whole numbers in the place of `double`.
use telemetry_testbed.Base.{ℕ, ◌+◌, ◌-◌, ◌*◌, ◌/◌, ◌%◌, ◌^◌, ◌≡◌, ltb, some, codes, drop}
use telemetry_testbed.Base.Int.{pos}
use telemetry_testbed.Types.{Vec3}
use telemetry_testbed.Cache.{Cache, telemetry_cache_init}
use telemetry_testbed.Pack.RoundTrip.{read_le}
use telemetry_testbed.Sim.Publisher.{build_message, start_args}
use telemetry_testbed.Sim.Sensors.{Double, MotorLoop}
use telemetry_testbed.Sim.Sensors.Motor1.{motor1_round}
use telemetry_testbed.Sim.Sensors.Motor2.{motor2_round}
use telemetry_testbed.Sim.Sensors.Imu.{ImuLoop, imu_round}
use telemetry_testbed.Sim.Sensors.Tilt.{TiltLoop, tilt_round}
use telemetry_testbed.Sim.Sensors.Readings.{InRange, readings, seen, payload_on, motor_rounds-agree}
use telemetry_testbed.Base.{List, [], ◌∷◌, Option, All, refl, true}
use telemetry_testbed.Sim.Tick.{Timespec, nanoseconds}
use telemetry_testbed.Sim.Publisher.Thread.{ticks}
use telemetry_testbed.Sim.Sensors.Threads.{motor1_thread, motor2_thread}
use telemetry_testbed.Sim.Sensors.Threads.Schedule.{
  rounds, wakes, Agrees1, Agrees2, motor_threads-agree,
}
use telemetry_testbed.Sim.Sensors.Attitude.{floats, in_counts, read_three, attitude_rounds-agree}

abbrev pub whole : Double
whole = record {
  D = ℕ;
  F = ℕ;
  ◌⊕◌ = ◌+◌;
  ◌⊖◌ = ◌-◌;
  ◌⊗◌ = ◌*◌;
  ◌⊘◌ = λ a b. a / (b + 1);
  num = λ m k. m / 10 ^ k;
  of_ℕ = λ n. n;
  pi = 3;
  sin = λ x. x % 2;
  cos = λ x. (x + 1) % 2;
  fabs = λ x. x;
  floor = λ x. x;
  fmod = λ a b. a % (b + 1);
  less = ltb;
  lround = pos;
  to_u32 = λ x. x % 2 ^ 32;
  to_float = λ x. x;
  rand_max = 32767;
  rand_r = λ seed. (seed % 32768, (seed * 1103515245 + 12345) % 2 ^ 32);
}

abbrev empty_cache : Cache ℕ
empty_cache = telemetry_cache_init 0

abbrev motor : MotorLoop ℕ
motor = record { seed = 7; t = 3; tick_frac = 0; tick_count = 41; temp_c_state = 32 }

motor_rounds-agree_run :
    let r₁ = motor1_round whole 50 (some empty_cache) motor in
    let r₂ = motor2_round whole 50 (some empty_cache) motor in
    let m₁ = readings (codes "/robot/sensors/motor1") r₁.messages in
    let m₂ = readings (codes "/robot/sensors/motor2") r₂.messages in
    let before = build_message start_args 9 empty_cache in
    ((c₁ : Cache ℕ) × (r₁.cache ≡ some c₁)
      × InRange m₁
      × ((build_message start_args 9 c₁).motor1 ≡ seen whole start_args.motor1_id m₁)
      × ((build_message start_args 9 c₁).motor2 ≡ before.motor2))
    × ((c₂ : Cache ℕ) × (r₂.cache ≡ some c₂)
        × InRange m₂
        × ((build_message start_args 9 c₂).motor2 ≡ seen whole start_args.motor2_id m₂)
        × ((build_message start_args 9 c₂).motor1 ≡ before.motor1))
motor_rounds-agree_run = motor_rounds-agree whole 50 start_args 9 empty_cache motor

abbrev imu : ImuLoop ℕ
imu = record { seed = 7; t = 3 }

abbrev tilt : TiltLoop ℕ
tilt = record { seed = 11; t = 4 }

attitude_rounds-agree_example :
    let r = imu_round whole 100 (some empty_cache) imu in
    let r' = tilt_round whole 100 (some empty_cache) tilt in
    let tilted = payload_on (codes "/robot/sensors/tilt0/tilt") r'.messages in
    ((acc : Vec3 ℕ) × (gyro : Vec3 ℕ) × (c₁ : Cache ℕ) × (r.cache ≡ some c₁)
      × ((build_message start_args 9 c₁).acc_g ≡ some (floats whole acc))
      × ((build_message start_args 9 c₁).gyro_dps ≡ some (floats whole gyro))
      × (read_three (payload_on (codes "/robot/sensors/imu0/acc") r.messages)
          ≡ in_counts whole (54610 / 10) acc)
      × (read_three (payload_on (codes "/robot/sensors/imu0/gyro") r.messages)
          ≡ in_counts whole (2624 / 10) gyro))
    × ((deg : Vec3 ℕ) × (c₂ : Cache ℕ) × (r'.cache ≡ some c₂)
        × ((build_message start_args 9 c₂).tilt_deg ≡ some (floats whole deg))
        × ((build_message start_args 9 c₂).tilt_status ≡ read_le (drop 6 tilted))
        × (read_three tilted ≡ in_counts whole (1820 / 10) deg))
attitude_rounds-agree_example = attitude_rounds-agree whole 100 start_args 9 empty_cache imu tilt

abbrev both_present : List (Option (Cache ℕ))
both_present = some empty_cache ∷ some empty_cache ∷ []

abbrev set_off : Timespec
set_off = record { tv_sec = 4; tv_nsec = 990000000 }

motor_threads-agree_example :
    let first = motor1_thread whole 50 20000000 true set_off 7 both_present in
    let second = motor2_thread whole 50 20000000 true set_off 7 both_present in
    All (Agrees1 whole start_args 9) (rounds first)
    × All (Agrees2 whole start_args 9) (rounds second)
    × (wakes first ≡ ticks (nanoseconds set_off) 20000000 both_present)
    × (wakes second ≡ ticks (nanoseconds set_off) 20000000 both_present)
motor_threads-agree_example =
    motor_threads-agree whole start_args 9 50 20000000 set_off 7 both_present
      ((empty_cache, refl), ((empty_cache, refl), tt))
