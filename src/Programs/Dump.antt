-- ===== src/Programs/Dump.antt =====
-- src/apps/state_dump.c: what it prints for a message, and what its `main` takes and gives back.
-- libmosquitto, libprotobuf-c's unpacking, `atoi` and the printing of `%.3f` are arguments.
pub mod Output
use telemetry_testbed.Base.{
  ℕ, ◌≡◌, ◌≢◌, refl, ap, ◌∙◌, if◌then◌else◌, List, [], ◌∷◌, ◌++◌, Option, none, some, Bool, true,
  false, codes, print_unsigned, print_signed, arith,
}
use telemetry_testbed.Base.Int.{ℤ, pos}
use telemetry_testbed.Types.{Vec3, Header, MotorState, StateMessage}
use telemetry_testbed.Cache.{Cache, telemetry_cache_get}
use telemetry_testbed.Sim.Publisher.{PubArgs, build_message}
use telemetry_testbed.Gateway.Message.{telemetry_topic_state}

-- `s ? s : "(null)"`.
abbrev pub or_null : Option (List ℕ) → List ℕ
or_null none = codes "(null)"
or_null (some s) = s

-- The line with `seq`, `t` and the robot, from the defaults where there is no header.
unfoldable pub header_line : Option Header → List ℕ
header_line none = codes "seq=0  t=0  robot_id=(null)\n"
header_line (some h) =
    codes "seq="
    ++ (print_unsigned h.seq
        ++ (codes "  t="
            ++ (print_unsigned h.timestamp_ns
                ++ (codes "  robot_id=" ++ (or_null h.robot_id ++ codes "\n")))))

unfoldable pub motor_line : List ℕ → Option MotorState → List ℕ
motor_line name none = []
motor_line name (some m) =
    codes " "
    ++ (name
        ++ (codes " id="
            ++ (or_null m.motor_id
                ++ (codes "  tics="
                    ++ (print_unsigned m.tics
                        ++ (codes "  rpm="
                            ++ (print_signed m.rpm
                                ++ (codes "  temp="
                                    ++ (print_signed m.temperature_c
                                        ++ (codes "C  vps="
                                            ++ (print_signed m.voltage_power_stage_mv
                                                ++ (codes "mV  cps="
                                                    ++ (print_signed m.current_power_stage_ma
                                                        ++ codes "mA\n")))))))))))))

module _ {F : Type 0} (print3 : F → List ℕ) where
  unfoldable pub vec3_line : List ℕ → List ℕ → Option (Vec3 F) → List ℕ
  vec3_line name unit none = []
  vec3_line name unit (some v) =
      name
      ++ (print3 v.x
          ++ (codes "  " ++ (print3 v.y ++ (codes "  " ++ (print3 v.z ++ (unit ++ codes "\n"))))))

  -- The calls of `printf` for a message that could be unpacked, in order.
  unfoldable pub dump : StateMessage F → List ℕ
  unfolding header_line vec3_line motor_line
  dump st =
      header_line st.header
      ++ (vec3_line (codes " acc_g:  ") [] st.acc_g
          ++ (vec3_line (codes " gyro:   ") (codes " dps") st.gyro_dps
              ++ (codes " imu_id="
                  ++ (or_null st.imu_id
                      ++ (codes "\n"
                          ++ (vec3_line (codes " tilt:   ") (codes " deg") st.tilt_deg
                              ++ (codes " tilt_id="
                                  ++ (or_null st.tilt_id
                                      ++ (codes "  status="
                                          ++ (print_unsigned st.tilt_status
                                              ++ (codes "\n"
                                                  ++ (motor_line (codes "motor1") st.motor1
                                                      ++ (motor_line (codes "motor2") st.motor2
                                                          ++ codes "\n")))))))))))))

  -- What goes to the standard output. A payload of no bytes is left alone.
  unfoldable pub on_msg : (List ℕ → Option (StateMessage F)) → List ℕ → List ℕ
  unfolding dump
  on_msg unpack [] = []
  on_msg unpack (b ∷ bytes) = elim (unpack (b ∷ bytes)) [ none ↦ [] | some st ↦ dump st ]

-- What `main` takes and gives back.
pub data Item : Type 0 where
  library client : Item

pub data Change : Type 0 where
  taken given_back : Item → Change

pub record DumpRun : Type 0 where
  pub rc : ℕ
  pub changes : List Change
  pub listens : Option (List ℕ × ℤ × List ℕ)

abbrev default_host : List ℕ
default_host = codes "127.0.0.1"

-- `argv` without the program's name.
unfoldable pub host_of : List (List ℕ) → List ℕ
host_of [] = default_host
host_of (host ∷ args) = host

unfoldable pub port_of : (List ℕ → ℤ) → List (List ℕ) → ℤ
port_of atoi [] = pos 1883
port_of atoi (host ∷ []) = pos 1883
port_of atoi (host ∷ port ∷ args) = atoi port

-- By whether `mosquitto_new` and `mosquitto_connect` succeed; `mosquitto_loop_forever` ends.
unfoldable pub dump_main : (List ℕ → ℤ) → List (List ℕ) → Bool → Bool → DumpRun
unfolding host_of port_of
dump_main atoi args new connect =
    if new
    then if connect
      then record {
        rc = 0;
        changes = taken library ∷ taken client ∷ given_back client ∷ given_back library ∷ [];
        listens = some (host_of args, port_of atoi args, telemetry_topic_state);
      }
      else record { rc = 2; changes = taken library ∷ taken client ∷ []; listens = none }
    else record { rc = 1; changes = taken library ∷ []; listens = none }
