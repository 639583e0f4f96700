-- ===== src/Json.antt =====
-- The telemetry object of the WebSocket protocol. src/app/telemetry_gateway.c and
-- src/infra/persistence/db_sqlite.c each have a `printf` format for it; the two differ in the
-- conversions of some numbers only, and here take those as texts.
use telemetry_testbed.Base.{ℕ, List, ◌++◌, codes}

-- The arguments of the format, as `printf` converts them.
pub record Vec3Text : Type 0 where
  pub x : List ℕ
  pub y : List ℕ
  pub z : List ℕ

pub record HeadText : Type 0 where
  pub t : List ℕ
  pub t_ns : List ℕ
  pub seq : List ℕ
  pub msg_ts_ns : List ℕ
  pub robot_id : List ℕ
  pub imu_id : List ℕ
  pub tilt_id : List ℕ
  pub tilt_status : List ℕ
  pub accel : Vec3Text
  pub gyro : Vec3Text
  pub tilt : Vec3Text

pub record MotorText : Type 0 where
  pub id : List ℕ
  pub tics : List ℕ
  pub rpm : List ℕ
  pub temperature_c : List ℕ
  pub voltage_power_stage_mv : List ℕ
  pub current_power_stage_ma : List ℕ

vec3_format : Vec3Text → List ℕ
vec3_format v =
    codes "{\"x\":"
    ++ (v.x ++ (codes ",\"y\":" ++ (v.y ++ (codes ",\"z\":" ++ (v.z ++ codes "}")))))

unfoldable pub head_format : HeadText → List ℕ
unfolding vec3_format
head_format h =
    codes "{\"type\":\"telemetry\",\"t\":"
    ++ (h.t
        ++ (codes ",\"t_ns\":"
            ++ (h.t_ns
                ++ (codes ",\"seq\":"
                    ++ (h.seq
                        ++ (codes ",\"msg_ts_ns\":"
                            ++ (h.msg_ts_ns
                                ++ (codes ",\"robot_id\":\""
                                    ++ (h.robot_id
                                        ++ (codes "\",\"imu_id\":\""
                                            ++ (h.imu_id
                                                ++ (codes "\",\"tilt_id\":\""
                                                    ++ (h.tilt_id
                                                        ++ (codes "\",\"tilt_status\":"
                                                            ++ (h.tilt_status
                                                            ++ (codes ",\"accel\":"
                                                            ++ (vec3_format h.accel
                                                            ++ (codes ",\"gyro\":"
                                                            ++ (vec3_format h.gyro
                                                            ++ (codes ",\"tilt\":"
                                                            ++ vec3_format
                                                            h.tilt))))))))))))))))))))

motor_format : MotorText → List ℕ
motor_format m =
    codes "{\"id\":\""
    ++ (m.id
        ++ (codes "\",\"tics\":"
            ++ (m.tics
                ++ (codes ",\"rpm\":"
                    ++ (m.rpm
                        ++ (codes ",\"temperature_c\":"
                            ++ (m.temperature_c
                                ++ (codes ",\"voltage_power_stage_mv\":"
                                    ++ (m.voltage_power_stage_mv
                                        ++ (codes ",\"current_power_stage_ma\":"
                                            ++ (m.current_power_stage_ma ++ codes "}")))))))))))

-- From the comma in front of `"motors"` to the brace that closes it.
unfoldable pub motors_format : MotorText → MotorText → List ℕ
unfolding motor_format
motors_format m1 m2 =
    codes ",\"motors\":{\"motor1\":"
    ++ (motor_format m1 ++ (codes ",\"motor2\":" ++ (motor_format m2 ++ codes "}")))
