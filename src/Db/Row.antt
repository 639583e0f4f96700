-- ===== src/Db/Row.antt =====
-- The row of the table `telemetry_state`: what `db_writer_insert_state` binds, and what the columns
-- of the history query give back (src/infra/persistence/db_sqlite.c).
use Prim.Native.String.{String}
use text.Mathlib.Text.{◌==◌ as str_eq}
use telemetry_testbed.Base.{
  ℕ, zero, suc, List, [], ◌∷◌, Option, none, some, Bool, true, false, if◌then◌else◌, get_or, map,
}
use telemetry_testbed.Base.Int.{ℤ, pos}
use telemetry_testbed.Base.Words.{int_of, int64_of, int_cut}
use telemetry_testbed.Types.{TelemetryState, Float}

-- The storage classes of SQLite.
pub data Value (F : Type 0) : Type 0 where
  null : Value F
  integer : ℤ → Value F
  real : F → Value F
  txt : List ℕ → Value F
  blob : List ℕ → Value F

abbrev pub columns : List String
columns =
    "received_at_ns" ∷ "topic" ∷ "robot_id" ∷ "seq" ∷ "msg_timestamp_ns" ∷ "imu_id" ∷ "acc_x"
    ∷ "acc_y" ∷ "acc_z" ∷ "gyro_x" ∷ "gyro_y" ∷ "gyro_z" ∷ "tilt_id" ∷ "tilt_x" ∷ "tilt_y"
    ∷ "tilt_z" ∷ "tilt_status" ∷ "motor1_id" ∷ "motor1_tics" ∷ "motor1_rpm" ∷ "motor1_temperature_c"
    ∷ "motor1_voltage_power_stage_mv" ∷ "motor1_current_power_stage_ma" ∷ "motor2_id"
    ∷ "motor2_tics" ∷ "motor2_rpm" ∷ "motor2_temperature_c" ∷ "motor2_voltage_power_stage_mv"
    ∷ "motor2_current_power_stage_ma" ∷ "raw" ∷ []

-- The columns that the history query selects, in its order.
abbrev pub selected : List String
selected =
    "received_at_ns" ∷ "robot_id" ∷ "seq" ∷ "msg_timestamp_ns" ∷ "imu_id" ∷ "acc_x" ∷ "acc_y"
    ∷ "acc_z" ∷ "gyro_x" ∷ "gyro_y" ∷ "gyro_z" ∷ "tilt_id" ∷ "tilt_x" ∷ "tilt_y" ∷ "tilt_z"
    ∷ "tilt_status" ∷ "motor1_id" ∷ "motor1_tics" ∷ "motor1_rpm" ∷ "motor1_temperature_c"
    ∷ "motor1_voltage_power_stage_mv" ∷ "motor1_current_power_stage_ma" ∷ "motor2_id"
    ∷ "motor2_tics" ∷ "motor2_rpm" ∷ "motor2_temperature_c" ∷ "motor2_voltage_power_stage_mv"
    ∷ "motor2_current_power_stage_ma" ∷ []

-- A row as the values of its columns, by name; a column that was never written is NULL.
abbrev pub Row : Type 0 → Type 0
Row F = List (String × Value F)

module _ {F : Type 0} where
  unfoldable pub cell : Row F → String → Value F
  cell [] name = null
  cell ((k, v) ∷ row) name = if str_eq k name then v else cell row name

  unfoldable pub named : List String → List (Value F) → Row F
  named [] vs = []
  named (k ∷ ks) [] = []
  named (k ∷ ks) (v ∷ vs) = (k, v) ∷ named ks vs

  -- The row of the result that the query makes of a row of the table.
  unfoldable pub select : Row F → List (Value F)
  unfolding cell
  select row = map (cell row) selected

  -- `sqlite3_column_int64`, `_int`, `_text` of column `i`; a column of another class is converted by
  -- SQLite, and only NULL is met here.
  unfoldable pub column_int64 : List (Value F) → ℕ → ℤ
  column_int64 st i = elim (get_or st i null) [ integer v ↦ v | _ ↦ pos 0 ]

  unfoldable pub column_int : List (Value F) → ℕ → ℤ
  unfolding column_int64
  column_int st i = int_cut (column_int64 st i)

  unfoldable pub column_text : List (Value F) → ℕ → Option (List ℕ)
  column_text st i = elim (get_or st i null) [ txt v ↦ some v | _ ↦ none ]

  unfoldable pub column_is_null : List (Value F) → ℕ → Bool
  column_is_null st i = elim (get_or st i null) [ null ↦ true | _ ↦ false ]

module _ (f : Float) where
  open f use {F, nought, is_nan, kept}

  unfoldable pub column_double : List (Value F) → ℕ → F
  column_double st i = elim (get_or st i null) [ real v ↦ v | _ ↦ nought ]

  -- `sqlite3_bind_double` into a REAL column: a NaN is stored as NULL, and what `sqlite3_column_double`
  -- gives back of any other is `kept x`, since SQLite stores -0.0 as 0.0.
  unfoldable pub bind_double : F → Value F
  bind_double x = if is_nan x then null else real (kept x)

  abbrev bind_text : Option (List ℕ) → Value F
  bind_text none = txt []
  bind_text (some t) = txt t

  abbrev bind_raw : Option (List ℕ) → ℕ → Value F
  bind_raw none len = null
  bind_raw (some bytes) zero = null
  bind_raw (some bytes) (suc n) = blob bytes

  -- The 30 values that `db_writer_insert_state` binds, in order.
  unfoldable pub bind_state : TelemetryState F → List (Value F)
  bind_state s =
      integer s.received_at_ns
      ∷ bind_text s.topic
      ∷ txt s.robot_id
      ∷ integer (int_of s.seq)
      ∷ integer (int64_of s.msg_timestamp_ns)
      ∷ txt s.imu_id
      ∷ bind_double s.acc_g.x
      ∷ bind_double s.acc_g.y
      ∷ bind_double s.acc_g.z
      ∷ bind_double s.gyro_dps.x
      ∷ bind_double s.gyro_dps.y
      ∷ bind_double s.gyro_dps.z
      ∷ txt s.tilt_id
      ∷ bind_double s.tilt_deg.x
      ∷ bind_double s.tilt_deg.y
      ∷ bind_double s.tilt_deg.z
      ∷ integer (int_of s.tilt_status)
      ∷ txt s.motor_id.at0
      ∷ integer (pos s.motor_tics.at0)
      ∷ integer s.motor_rpm.at0
      ∷ integer s.motor_temperature_c.at0
      ∷ integer s.motor_voltage_power_stage_mv.at0
      ∷ integer s.motor_current_power_stage_ma.at0
      ∷ txt s.motor_id.at1
      ∷ integer (pos s.motor_tics.at1)
      ∷ integer s.motor_rpm.at1
      ∷ integer s.motor_temperature_c.at1
      ∷ integer s.motor_voltage_power_stage_mv.at1
      ∷ integer s.motor_current_power_stage_ma.at1
      ∷ bind_raw s.raw s.raw_len
      ∷ []

  -- The row that the statement inserts.
  unfoldable pub state_row : TelemetryState F → Row F
  unfolding bind_state named
  state_row s = named columns (bind_state s)
