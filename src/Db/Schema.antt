-- ===== src/Db/Schema.antt =====
-- The schema section of src/infra/persistence/db_sqlite.c: `column_exists`, `ensure_column` and the
-- functions that create or upgrade the table. A Boolean result is "the C function returned 0", and
-- the statements are texts that SQLite gets.
pub mod Statements
pub mod Upgrade
use telemetry_testbed.Base.{
  ℕ, zero, suc, ◌==◌, if◌then◌else◌, List, [], ◌∷◌, ◌++◌, Option, none, some, Bool, true, false,
  ◌||◌, codes, text_eq, take,
}
use telemetry_testbed.Base.Int.{ℤ, pos, negsuc}
use telemetry_testbed.Db.Sqlite.{Sqlite}

abbrev pub table_name : List ℕ
table_name = codes "telemetry_state"

unfoldable pub member : List ℕ → List (List ℕ) → Bool
member col [] = false
member col (name ∷ names) = text_eq name col || member col names

-- Up to the first space, at most `room` bytes.
unfoldable pub column_name : ℕ → List ℕ → List ℕ
column_name zero def = []
column_name (suc room) [] = []
column_name (suc room) (c ∷ def) =
    let rest = c ∷ column_name room def in if c == b' ' then [] else rest

-- The name that `ensure_column` looks up: it is cut to a buffer of 128 bytes.
unfoldable pub name_of : List ℕ → List ℕ
unfolding column_name
name_of def = column_name 127 def

-- The statement, cut to a buffer of 512 bytes.
unfoldable pub alter : List ℕ → List ℕ → List ℕ
alter table def =
    take 511 (codes "ALTER TABLE " ++ (table ++ (codes " ADD COLUMN " ++ (def ++ codes ";"))))

abbrev pub motor_columns : List (List ℕ)
motor_columns =
    codes "motor1_id TEXT"
    ∷ codes "motor1_tics INTEGER"
    ∷ codes "motor1_rpm INTEGER"
    ∷ codes "motor1_temperature_c INTEGER"
    ∷ codes "motor1_voltage_power_stage_mv INTEGER"
    ∷ codes "motor1_current_power_stage_ma INTEGER"
    ∷ codes "motor2_id TEXT"
    ∷ codes "motor2_tics INTEGER"
    ∷ codes "motor2_rpm INTEGER"
    ∷ codes "motor2_temperature_c INTEGER"
    ∷ codes "motor2_voltage_power_stage_mv INTEGER"
    ∷ codes "motor2_current_power_stage_ma INTEGER"
    ∷ []

abbrev pub journal_pragma : List ℕ
journal_pragma = codes "PRAGMA journal_mode=WAL;"

abbrev pub synchronous_pragma : List ℕ
synchronous_pragma = codes "PRAGMA synchronous=NORMAL;"

abbrev pub foreign_keys_pragma : List ℕ
foreign_keys_pragma = codes "PRAGMA foreign_keys=ON;"

abbrev pub version_pragma : List ℕ
version_pragma = codes "PRAGMA user_version=2;"

-- The table and its two indexes.
abbrev pub schema : List ℕ
schema =
    codes "CREATE TABLE IF NOT EXISTS telemetry_state (\n"
    ++ (codes "  id INTEGER PRIMARY KEY AUTOINCREMENT,\n"
        ++ (codes "  received_at_ns INTEGER NOT NULL,\n"
            ++ (codes "  topic TEXT NOT NULL,\n"
                ++ (codes "  robot_id TEXT,\n"
                    ++ (codes "  seq INTEGER,\n"
                        ++ (codes "  msg_timestamp_ns INTEGER,\n"
                            ++ (codes "  imu_id TEXT,\n"
                                ++ (codes "  acc_x REAL, acc_y REAL, acc_z REAL,\n"
                                    ++ (codes "  gyro_x REAL, gyro_y REAL, gyro_z REAL,\n"
                                        ++ (codes "  tilt_id TEXT,\n"
                                            ++ (codes "  tilt_x REAL, tilt_y REAL, tilt_z REAL,\n"
                                                ++ (codes "  tilt_status INTEGER,\n"
                                                    ++ (codes "  motor1_id TEXT,\n"
                                                        ++ (codes "  motor1_tics INTEGER,\n"
                                                            ++ (codes "  motor1_rpm INTEGER,\n"
                                                            ++ (codes
                                                            "  motor1_temperature_c INTEGER,\n"
                                                            ++ (codes
                                                            "  motor1_voltage_power_stage_mv INTEGER,\n"
                                                            ++ (codes
                                                            "  motor1_current_power_stage_ma INTEGER,\n"
                                                            ++ (codes "  motor2_id TEXT,\n"
                                                            ++ (codes "  motor2_tics INTEGER,\n"
                                                            ++ (codes "  motor2_rpm INTEGER,\n"
                                                            ++ (codes
                                                            "  motor2_temperature_c INTEGER,\n"
                                                            ++ (codes
                                                            "  motor2_voltage_power_stage_mv INTEGER,\n"
                                                            ++ (codes
                                                            "  motor2_current_power_stage_ma INTEGER,\n"
                                                            ++ (codes "  raw BLOB\n"
                                                            ++ (codes ");\n"
                                                            ++ (codes
                                                            "CREATE INDEX IF NOT EXISTS idx_state_received ON telemetry_state(received_at_ns);\n"
                                                            ++ (codes
                                                            "CREATE INDEX IF NOT EXISTS idx_state_robot_received ON telemetry_state(robot_id, received_at_ns);\n"))))))))))))))))))))))))))))

-- `if (step != 0) return -1;`
infixl 5 ◌then_or_fail◌
unfoldable pub ◌then_or_fail◌ : {C : Type 0} → C × Bool → (C → C × Bool) → C × Bool
(c, true) then_or_fail next = next c
(c, false) then_or_fail next = (c, false)

module _ {F : Type 0} (db : Sqlite F) where
  open db use {Conn, exec, user_version, table_info}

  unfoldable pub column_exists : Conn → List ℕ → List ℕ → Bool
  unfolding member
  column_exists c table col = elim (table_info c table) [
    | none ↦ false
    | some names ↦ member col names
  ]

  unfoldable pub ensure_column : Conn → List ℕ → List ℕ → Conn × Bool
  unfolding column_exists name_of
  ensure_column c table def =
      if column_exists c table (name_of def) then (c, true) else exec c (alter table def)

  -- The `for` loop over `cols`.
  unfoldable pub ensure_columns : Conn → List (List ℕ) → Conn × Bool
  unfolding ensure_column
  ensure_columns c [] = (c, true)
  ensure_columns c (def ∷ defs) =
      ensure_column c table_name def then_or_fail λ c₁. ensure_columns c₁ defs

  unfoldable pub db_apply_pragmas : Conn → Conn × Bool
  db_apply_pragmas c = exec c journal_pragma then_or_fail λ c₁.
      exec c₁ synchronous_pragma then_or_fail λ c₂. exec c₂ foreign_keys_pragma

  unfoldable pub db_upgrade_v1_to_v2 : Conn → Conn × Bool
  unfolding db_apply_pragmas ensure_columns
  db_upgrade_v1_to_v2 c = db_apply_pragmas c then_or_fail λ c₁.
      ensure_columns c₁ motor_columns then_or_fail λ c₂. exec c₂ version_pragma

  unfoldable pub db_migrate_v2 : Conn → Conn × Bool
  unfolding db_apply_pragmas ensure_columns
  db_migrate_v2 c = db_apply_pragmas c then_or_fail λ c₁. exec c₁ schema then_or_fail λ c₂.
      ensure_columns c₂ motor_columns then_or_fail λ c₃. exec c₃ version_pragma

  -- By the version of the database.
  unfoldable pub by_version : Conn → ℤ → Conn × Bool
  by_version c (pos zero) = db_migrate_v2 c
  by_version c (pos (suc zero)) = db_upgrade_v1_to_v2 c
  by_version c (pos (suc (suc zero))) = (c, true)
  by_version c (pos (suc (suc (suc n)))) = (c, false)
  by_version c (negsuc n) = (c, false)

  unfoldable pub db_ensure_schema : Conn → Conn × Bool
  unfolding by_version
  db_ensure_schema c = elim (user_version c) [ none ↦ (c, false) | some v ↦ by_version c v ]
