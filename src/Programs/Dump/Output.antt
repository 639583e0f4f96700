-- ===== src/Programs/Dump/Output.antt =====
-- What src/apps/state_dump.c prints of what src/sim/telemetry_state_pub.c publishes, and what its
-- `main` leaves behind.
use telemetry_testbed.Base.{
  ℕ, ◌≡◌, ◌≢◌, refl, ◌∙◌, List, [], ◌∷◌, ◌++◌, append_assoc, append-nil, Option, some, Bool, true,
  false, codes, print_unsigned, print_signed, arith, ◌&&◌, not,
}
use telemetry_testbed.Base.Int.{ℤ}
use telemetry_testbed.Types.{Vec3, StateMessage}
use telemetry_testbed.Cache.{Cache}
use telemetry_testbed.Sim.Publisher.{start_args, build_message}
use telemetry_testbed.Programs.Dump.{
  header_line, motor_line, vec3_line, dump, on_msg, library, client, Change, taken, given_back,
  dump_main,
}

-- What is held after some changes: whether the library and whether the client are.
abbrev pub held : Bool × Bool → List Change → Bool × Bool
held h [] = h
held (l, c) (taken library ∷ changes) = held (true, c) changes
held (l, c) (taken client ∷ changes) = held (l, true) changes
held (l, c) (given_back library ∷ changes) = held (false, c) changes
held (l, c) (given_back client ∷ changes) = held (l, false) changes

-- Everything is given back just where the connection was made: where `mosquitto_connect` fails
-- `main` leaves the client and the library behind, and where `mosquitto_new` fails the library.
dump_main-held :
    (atoi : List ℕ → ℤ) (args : List (List ℕ)) (new connect : Bool)
    → held (false, false) (dump_main atoi args new connect).changes
      ≡ (not (new && connect), new && not connect)
unfolding dump_main
dump_main-held atoi args false connect = refl
dump_main-held atoi args true false = refl
dump_main-held atoi args true true = refl

abbrev pub concat : List (List ℕ) → List ℕ
concat [] = []
concat (t ∷ ts) = t ++ concat ts

-- The pieces of the text for a motor.
abbrev pub motor_text : List ℕ → List ℕ → ℕ → ℤ → ℤ → ℤ → ℤ → List ℕ
motor_text name ident tics rpm temperature voltage current = concat (
    codes " "
    ∷ name
    ∷ codes " id="
    ∷ ident
    ∷ codes "  tics="
    ∷ print_unsigned tics
    ∷ codes "  rpm="
    ∷ print_signed rpm
    ∷ codes "  temp="
    ∷ print_signed temperature
    ∷ codes "C  vps="
    ∷ print_signed voltage
    ∷ codes "mV  cps="
    ∷ print_signed current
    ∷ codes "mA\n"
    ∷ [])

module _ {F : Type 0} (print3 : F → List ℕ) where
  on_msg-some :
      (unpack : List ℕ → Option (StateMessage F)) (payload : List ℕ) (st : StateMessage F)
      → payload ≢ []
      → unpack payload ≡ some st
      → on_msg print3 unpack payload ≡ dump print3 st
  unfolding on_msg
  on_msg-some unpack [] st ne e = absurd (ne refl)
  on_msg-some unpack (b ∷ bytes) st ne e = ground (arith, e)

  abbrev pub three : List ℕ → Vec3 F → List ℕ → List ℕ
  three name v unit = concat (
      name
      ∷ print3 v.x
      ∷ codes "  "
      ∷ print3 v.y
      ∷ codes "  "
      ∷ print3 v.z
      ∷ unit
      ∷ codes "\n"
      ∷ [])

  -- The eight lines for a snapshot of the cache.
  abbrev pub printed : ℕ → Cache F → List ℕ
  printed timestamp_ns c = concat (
      concat (
        codes "seq="
        ∷ print_unsigned c.seq
        ∷ codes "  t="
        ∷ print_unsigned timestamp_ns
        ∷ codes "  robot_id=robot_sim\n"
        ∷ [])
      ∷ three (codes " acc_g:  ") c.acc_g []
      ∷ three (codes " gyro:   ") c.gyro_dps (codes " dps")
      ∷ codes " imu_id=imu0\n"
      ∷ three (codes " tilt:   ") c.tilt_deg (codes " deg")
      ∷ concat (codes " tilt_id=tilt0  status=" ∷ print_unsigned c.tilt_status ∷ codes "\n" ∷ [])
      ∷ motor_text (codes "motor1") (codes "motor1") c.motor_tics.at0 c.motor_rpm.at0
          c.motor_temp_c.at0 c.motor_voltage_mv.at0 c.motor_current_ma.at0
      ∷ motor_text (codes "motor2") (codes "motor2") c.motor_tics.at1 c.motor_rpm.at1
          c.motor_temp_c.at1 c.motor_voltage_mv.at1 c.motor_current_ma.at1
      ∷ codes "\n"
      ∷ [])

  dump-build :
      (timestamp_ns : ℕ) (c : Cache F)
      → dump print3 (build_message start_args timestamp_ns c) ≡ printed timestamp_ns c
  unfolding dump header_line motor_line vec3_line start_args build_message
  dump-build timestamp_ns c = simp (append_assoc, append-nil)

  -- Let unpacking undo packing of the publisher's message, and let that not pack to nothing. For a
  -- snapshot of the cache that the publisher sends, `state_dump` prints eight lines: the sequence
  -- number, the clock and the robot, the three vectors, the names of the sensors with the tilt
  -- status, and the two motors, each with the readings of the cache, in the order of the source.
  pub on_msg-published :
      (pack : StateMessage F → List ℕ) (unpack : List ℕ → Option (StateMessage F))
      (timestamp_ns : ℕ) (c : Cache F)
      → let m = build_message start_args timestamp_ns c in
        unpack (pack m) ≡ some m
        → pack m ≢ []
        → on_msg print3 unpack (pack m) ≡ printed timestamp_ns c
  on_msg-published pack unpack timestamp_ns c back ne =
      on_msg-some unpack (pack (build_message start_args timestamp_ns c)) _ ne back
      ∙ dump-build timestamp_ns c
