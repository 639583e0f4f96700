-- ===== src/Examples/Board.antt =====
-- The simulator's cache, payloads and clock.
use telemetry_testbed.Base.{
  ℕ, ◌+◌, ◌%◌, ◌^◌, ◌≡◌, ◌≤◌, ◌<◌, ◌≢◌, refl, List, [], ◌∷◌, Option, some, true, arith,
}
use mathlib.Core.Option
use telemetry_testbed.Base.Int.{pos, negsuc}
use telemetry_testbed.Base.Words.{IsI16, IsI32, signed}
use telemetry_testbed.Types.{Vec3, StateMessage}
use telemetry_testbed.Pack.{
  clamp_i16, clamp_i32_ll, pack_i16_le, pack_i32_le, pack_u16_le, pack_u32_le,
}
use telemetry_testbed.Pack.RoundTrip.{read_le, read-pack, dist, clamp_nearest}
use telemetry_testbed.Cache.{Cache, Motor, telemetry_cache_init, telemetry_cache_get}
use telemetry_testbed.Cache.Updates.{
  Update, imu, tilt, motor, run, accepted, last_imu, last_tilt, last_motor1, last_motor2, motor1,
  motor2, get_seq-run,
}
use telemetry_testbed.Gateway.Message.{decode_sample}
use telemetry_testbed.Sim.Tick.{Timespec, next_tick, nanoseconds, next_tick_lem}
use telemetry_testbed.Sim.Publisher.{start_args, build_message}
use telemetry_testbed.Sim.Publisher.Snapshot.{snapshot, publish-decode}
use telemetry_testbed.Examples.Sample.{whole, level}

read-pack_example :
    (signed (2 ^ 15) (read_le (pack_i16_le (negsuc 32767))) ≡ negsuc 32767)
    × (signed (2 ^ 31) (read_le (pack_i32_le (pos 70000))) ≡ pos 70000)
    × (read_le (pack_u16_le 515) ≡ 515)
    × (read_le (pack_u32_le 4294967295) ≡ 4294967295)
read-pack_example =
    read-pack (negsuc 32767) (pos 70000) 515 4294967295 (omega arith, omega arith)
      (omega arith, omega arith) (omega arith) (omega arith)

clamp_nearest_example :
    (IsI16 (clamp_i16 (negsuc 3000000000))
      × (dist (clamp_i16 (negsuc 3000000000)) (negsuc 3000000000)
          ≤ dist (pos 5) (negsuc 3000000000)))
    × (IsI32 (clamp_i32_ll (negsuc 3000000000))
        × (dist (clamp_i32_ll (negsuc 3000000000)) (negsuc 3000000000)
            ≤ dist (pos 7) (negsuc 3000000000)))
clamp_nearest_example =
    clamp_nearest (negsuc 3000000000) (pos 5) (pos 7) (omega arith, omega arith)
      (omega arith, omega arith)

abbrev reading : Motor
reading = record {
  tics = 3;
  rpm = pos 900;
  temperature_c = pos 30;
  voltage_power_stage_mv = pos 24000;
  current_power_stage_ma = pos 1500;
}

abbrev updates : List (Update ℕ)
updates = motor (pos 2) reading ∷ imu level level ∷ motor (pos 3) reading ∷ tilt level 1 ∷ []

abbrev cleared : Cache ℕ
cleared = telemetry_cache_init 0

get_seq-run_example :
    let s = telemetry_cache_get (run cleared updates) in
    (◌≡◌ {A = Vec3 ℕ × Vec3 ℕ}
      (s.acc_g, s.gyro_dps)
      (last_imu (cleared.acc_g, cleared.gyro_dps) updates))
    × (◌≡◌ {A = Vec3 ℕ × ℕ}
        (s.tilt_deg, s.tilt_status)
        (last_tilt (cleared.tilt_deg, cleared.tilt_status) updates))
    × (motor1 s ≡ last_motor1 (motor1 cleared) updates)
    × (motor2 s ≡ last_motor2 (motor2 cleared) updates)
    × (s.seq % 2 ^ 32 ≡ (cleared.seq + accepted updates) % 2 ^ 32)
get_seq-run_example = get_seq-run cleared updates

next_tick_lem_run :
    let t : Timespec = record { tv_sec = 5; tv_nsec = 999999999 } in
    ((next_tick t 20000000).tv_nsec < 1000000000)
    × (nanoseconds (next_tick t 20000000) ≡ nanoseconds t + 20000000)
next_tick_lem_run = next_tick_lem (record { tv_sec = 5; tv_nsec = 999999999 }) 20000000

abbrev packed : StateMessage ℕ → List ℕ
packed m = 7 ∷ []

abbrev unpacked : List ℕ → Option (StateMessage ℕ)
unpacked bytes = some (build_message start_args 12 cleared)

packed_some : packed (build_message start_args 12 cleared) ≢ []
packed_some = ground arith

publish-decode_example :
    let payload = packed (build_message start_args 12 cleared) in
    Option.map (decode_sample whole (pos 5) true payload) (unpacked payload)
    ≡ some (snapshot whole (pos 5) 12 cleared payload)
publish-decode_example = publish-decode whole packed unpacked (pos 5) 12 cleared refl packed_some
