-- ===== src/Db/History.antt =====
-- `append_row_as_sample_json` and `db_reader_history_last_json` of
-- src/infra/persistence/db_sqlite.c. SQLite is the argument `query`: for a value of `LIMIT ?`, the
-- rows of the result in order, or `none` where the statement cannot be prepared.
pub mod Contents
pub mod Replay
use telemetry_testbed.Base.{
  ℕ, zero, suc, ◌+◌, ◌*◌, ltb, if◌then◌else◌, List, [], ◌∷◌, ◌++◌, reverse, Option, none, some,
  Bool, true, false, ◌||◌, not, codes, print_signed,
}
use telemetry_testbed.Base.Int.{ℤ, pos, negsuc, ltb_ℤ}
use telemetry_testbed.Types.{Float}
use telemetry_testbed.Json.{Vec3Text, HeadText, MotorText, head_format, motors_format}
use telemetry_testbed.Db.Buffer.{StrBuf, fresh, sb_append, sb_appendf}
use telemetry_testbed.Db.Row.{
  Value, column_int64, column_int, column_text, column_is_null, column_double,
}

-- What `db_reader_history_last_json` returns: 0 with the text, or `failed n` for -n.
pub data Reply : Type 0 where
  reply : List ℕ → Reply
  failed : ℕ → Reply

-- `limit` as an `int`, made a count of 1 to 5000.
unfoldable pub clamp_limit : ℤ → ℕ
clamp_limit (pos zero) = 300
clamp_limit (pos (suc n)) = if ltb 5000 (suc n) then 5000 else suc n
clamp_limit (negsuc n) = 300

abbrev pub items_head : List ℕ
items_head = codes "{\"type\":\"history\",\"items\":["

abbrev or_empty : Option (List ℕ) → List ℕ
or_empty none = []
or_empty (some t) = t

module _ (alloc : ℕ → Bool) where
  -- An append whose result is not looked at.
  unfoldable pub append_or_keep : StrBuf → List ℕ → StrBuf
  append_or_keep sb s = elim (sb_append alloc sb s) [ none ↦ sb | some r ↦ r ]

  -- The `for` loop, over the rows from the last index down to 0.
  unfoldable pub emit : StrBuf → List (List ℕ) → StrBuf
  emit sb [] = sb
  emit sb (json ∷ []) = append_or_keep sb json
  emit sb (json ∷ next ∷ rows) =
      emit (append_or_keep (append_or_keep sb json) (codes ",")) (next ∷ rows)

  abbrev finish : StrBuf → Reply
  finish sb = elim (sb_append alloc sb (codes "]}")) [ none ↦ failed 5 | some r ↦ reply r.text ]

module _ (f : Float) where
  open f use {F, print6, print_seconds}

  abbrev vec3_at : List (Value F) → ℕ → Vec3Text
  vec3_at st i = record {
    x = print6 (column_double f st i);
    y = print6 (column_double f st (i + 1));
    z = print6 (column_double f st (i + 2));
  }

  unfoldable pub row_head : List (Value F) → HeadText
  unfolding column_int64 column_int column_text column_double
  row_head st = record {
    t = print_seconds (column_int64 st 0);
    t_ns = print_signed (column_int64 st 0);
    seq = print_signed (column_int st 2);
    msg_ts_ns = print_signed (column_int64 st 3);
    robot_id = or_empty (column_text st 1);
    imu_id = or_empty (column_text st 4);
    tilt_id = or_empty (column_text st 11);
    tilt_status = print_signed (column_int st 15);
    accel = vec3_at st 5;
    gyro = vec3_at st 8;
    tilt = vec3_at st 12;
  }

  -- A motor's six columns from index `i` on.
  unfoldable pub row_motor : List (Value F) → ℕ → MotorText
  unfolding column_int64 column_int column_text
  row_motor st i = record {
    id = or_empty (column_text st i);
    tics = print_signed (column_int64 st (i + 1));
    rpm = print_signed (column_int st (i + 2));
    temperature_c = print_signed (column_int st (i + 3));
    voltage_power_stage_mv = print_signed (column_int st (i + 4));
    current_power_stage_ma = print_signed (column_int st (i + 5));
  }

  unfoldable pub has_motors : List (Value F) → Bool
  unfolding column_is_null
  has_motors st = not (column_is_null st 16) || not (column_is_null st 22)

  module _ (alloc : ℕ → Bool) where
    abbrev append_motors : StrBuf → List (Value F) → Option StrBuf
    append_motors sb st =
        if has_motors st
        then sb_appendf alloc sb (motors_format (row_motor st 16) (row_motor st 22))
        else some sb

    unfoldable pub append_row_as_sample_json : StrBuf → List (Value F) → Option StrBuf
    append_row_as_sample_json sb st = elim (sb_appendf alloc sb (head_format (row_head st))) [
      | none ↦ none
      | some sb₁ ↦ elim (append_motors sb₁ st) [
        | none ↦ none
        | some sb₂ ↦ sb_append alloc sb₂ (codes "}")
      ]
    ]

    -- The `while` loop: `room` is `limit - n`. A row that cannot be appended ends it.
    unfoldable pub collect : ℕ → List (List (Value F)) → List (List ℕ)
    collect zero rows = []
    collect (suc room) [] = []
    collect (suc room) (st ∷ rows) = elim (append_row_as_sample_json fresh st) [
      | none ↦ []
      | some one ↦ one.text ∷ collect room rows
    ]

    -- `calloc(limit, sizeof(row_t))`, with pointers of 8 bytes, then both loops.
    abbrev fill : StrBuf → ℕ → List (List (Value F)) → Reply
    fill sb limit rows =
        if alloc (limit * 8)
        then finish alloc (emit alloc sb (reverse (collect limit rows)))
        else failed 4

    unfoldable pub db_reader_history_last_json : (ℕ → Option (List (List (Value F)))) → ℤ → Reply
    unfolding clamp_limit
    db_reader_history_last_json query limit = elim (query (clamp_limit limit)) [
      | none ↦ failed 2
      | some rows ↦ elim (sb_append alloc fresh items_head) [
        | none ↦ failed 3
        | some sb ↦ fill sb (clamp_limit limit) rows
      ]
    ]
