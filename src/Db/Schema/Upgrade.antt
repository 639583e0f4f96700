-- ===== src/Db/Schema/Upgrade.antt =====
-- What the schema functions of src/infra/persistence/db_sqlite.c leave behind.
use telemetry_testbed.Base.{
  ℕ, zero, suc, ◌≡◌, refl, ap, sym, ◌∙◌, subst, ◌⊎◌, inl, inr, List, [], ◌∷◌, ◌++◌, map, Bool, true,
  false, ◌&&◌, codes, text_eq, is_digit, print_unsigned, All, All-append, append-nil, append_assoc,
  arith, Bool-cases,
}
use telemetry_testbed.Base.Int.{ℤ, pos, negsuc}
use telemetry_testbed.Base.Compare.{text_eq-true}
use telemetry_testbed.Db.Row.{columns}
use telemetry_testbed.Db.Sqlite.{Sqlite}
use Prim.Native.String.{String}
use telemetry_testbed.Db.Schema.Statements.{
  Column, Index, Catalogue, print_column, create_text, add_text, pragma_text, is_plain, are_plain,
}
use telemetry_testbed.Db.Schema.{
  table_name, member, name_of, alter, motor_columns, journal_pragma, synchronous_pragma,
  foreign_keys_pragma, version_pragma, schema, ◌then_or_fail◌, column_exists, ensure_column,
  ensure_columns, db_apply_pragmas, db_upgrade_v1_to_v2, db_migrate_v2, by_version,
  db_ensure_schema,
}

-- The columns of the insert in front of the motors'.
abbrev pub base_columns : List (List ℕ)
base_columns =
    codes "received_at_ns"
    ∷ codes "topic"
    ∷ codes "robot_id"
    ∷ codes "seq"
    ∷ codes "msg_timestamp_ns"
    ∷ codes "imu_id"
    ∷ codes "acc_x"
    ∷ codes "acc_y"
    ∷ codes "acc_z"
    ∷ codes "gyro_x"
    ∷ codes "gyro_y"
    ∷ codes "gyro_z"
    ∷ codes "tilt_id"
    ∷ codes "tilt_x"
    ∷ codes "tilt_y"
    ∷ codes "tilt_z"
    ∷ codes "tilt_status"
    ∷ []

abbrev pub IsIn : List ℕ → List (List ℕ) → Type 0
IsIn n [] = ⊥
IsIn n (x ∷ xs) = (x ≡ n) ⊎ IsIn n xs

abbrev pub HasAll : List (List ℕ) → List (List ℕ) → Type 0
HasAll wanted names = All (λ n. IsIn n names) wanted

member-IsIn : (n : List ℕ) (xs : List (List ℕ)) → member n xs ≡ true → IsIn n xs
unfolding member
member-IsIn n [] h = absurd (cc h)
member-IsIn n (x ∷ xs) h = elim (Bool-cases (text_eq x n)) [
  | inl same ↦ inl (text_eq-true x n same)
  | inr other ↦
      let later : member n xs ≡ true = ground (arith, h, other) in inr (member-IsIn n xs later)
]

-- The columns of the first version.
abbrev pub HasBase : List (List ℕ) → Type 0
HasBase names = HasAll base_columns names × HasAll (codes "raw" ∷ []) names

abbrev column : String → String → Column
column name decl = record { name = codes name; decl = codes decl }

abbrev motor_specs : List Column
motor_specs =
    column "motor1_id" "TEXT"
    ∷ column "motor1_tics" "INTEGER"
    ∷ column "motor1_rpm" "INTEGER"
    ∷ column "motor1_temperature_c" "INTEGER"
    ∷ column "motor1_voltage_power_stage_mv" "INTEGER"
    ∷ column "motor1_current_power_stage_ma" "INTEGER"
    ∷ column "motor2_id" "TEXT"
    ∷ column "motor2_tics" "INTEGER"
    ∷ column "motor2_rpm" "INTEGER"
    ∷ column "motor2_temperature_c" "INTEGER"
    ∷ column "motor2_voltage_power_stage_mv" "INTEGER"
    ∷ column "motor2_current_power_stage_ma" "INTEGER"
    ∷ []

-- The table that the program means to create.
abbrev wanted_lines : List (List Column)
wanted_lines =
    (column "id" "INTEGER PRIMARY KEY AUTOINCREMENT" ∷ [])
    ∷ (column "received_at_ns" "INTEGER NOT NULL" ∷ [])
    ∷ (column "topic" "TEXT NOT NULL" ∷ [])
    ∷ (column "robot_id" "TEXT" ∷ [])
    ∷ (column "seq" "INTEGER" ∷ [])
    ∷ (column "msg_timestamp_ns" "INTEGER" ∷ [])
    ∷ (column "imu_id" "TEXT" ∷ [])
    ∷ (column "acc_x" "REAL" ∷ column "acc_y" "REAL" ∷ column "acc_z" "REAL" ∷ [])
    ∷ (column "gyro_x" "REAL" ∷ column "gyro_y" "REAL" ∷ column "gyro_z" "REAL" ∷ [])
    ∷ (column "tilt_id" "TEXT" ∷ [])
    ∷ (column "tilt_x" "REAL" ∷ column "tilt_y" "REAL" ∷ column "tilt_z" "REAL" ∷ [])
    ∷ (column "tilt_status" "INTEGER" ∷ [])
    ∷ (column "motor1_id" "TEXT" ∷ [])
    ∷ (column "motor1_tics" "INTEGER" ∷ [])
    ∷ (column "motor1_rpm" "INTEGER" ∷ [])
    ∷ (column "motor1_temperature_c" "INTEGER" ∷ [])
    ∷ (column "motor1_voltage_power_stage_mv" "INTEGER" ∷ [])
    ∷ (column "motor1_current_power_stage_ma" "INTEGER" ∷ [])
    ∷ (column "motor2_id" "TEXT" ∷ [])
    ∷ (column "motor2_tics" "INTEGER" ∷ [])
    ∷ (column "motor2_rpm" "INTEGER" ∷ [])
    ∷ (column "motor2_temperature_c" "INTEGER" ∷ [])
    ∷ (column "motor2_voltage_power_stage_mv" "INTEGER" ∷ [])
    ∷ (column "motor2_current_power_stage_ma" "INTEGER" ∷ [])
    ∷ (column "raw" "BLOB" ∷ [])
    ∷ []

abbrev wanted_indexes : List Index
wanted_indexes =
    record { name = codes "idx_state_received"; keys = codes "received_at_ns" ∷ [] }
    ∷ record {
      name = codes "idx_state_robot_received";
      keys = codes "robot_id" ∷ codes "received_at_ns" ∷ [];
    }
    ∷ []

wanted_plain : are_plain wanted_lines wanted_indexes ≡ true
unfolding text_eq is_digit
wanted_plain = refl

-- The texts of the code are these statements.
schema-create_text : schema ≡ create_text wanted_lines wanted_indexes
schema-create_text = refl

version_pragma-text : version_pragma ≡ pragma_text (codes "user_version") (print_unsigned 2)
unfolding print_unsigned
version_pragma-text = refl

columns-parts :
    map codes columns ≡ base_columns ++ (map name_of motor_columns ++ (codes "raw" ∷ []))
unfolding name_of
columns-parts = refl

unfoldable pub all_in : List (List ℕ) → List (List ℕ) → Bool
all_in [] names = true
all_in (w ∷ wanted) names = member w names && all_in wanted names

pub all_in-HasAll :
    (wanted names : List (List ℕ)) → all_in wanted names ≡ true → HasAll wanted names
unfolding all_in
all_in-HasAll [] names h = tt
all_in-HasAll (w ∷ wanted) names h =
    let here : member w names ≡ true = ground (arith, h) in
    (member-IsIn w names here, all_in-HasAll wanted names (ground (arith, h)))

new_table-HasBase : HasBase (codes "id" ∷ map codes columns)
new_table-HasBase =
    let front : all_in base_columns (codes "id" ∷ map codes columns) ≡ true =
      unfold all_in member text_eq in refl in
    let back : all_in (codes "raw" ∷ []) (codes "id" ∷ map codes columns) ≡ true =
      unfold all_in member text_eq in refl in
    (all_in-HasAll base_columns _ front, all_in-HasAll (codes "raw" ∷ []) _ back)

IsIn-append : (n : List ℕ) (xs ys : List (List ℕ)) → IsIn n xs → IsIn n (xs ++ ys)
IsIn-append n [] ys h = absurd h
IsIn-append n (x ∷ xs) ys (inl e) = inl e
IsIn-append n (x ∷ xs) ys (inr h) = inr (IsIn-append n xs ys h)

IsIn-last : (n : List ℕ) (xs : List (List ℕ)) → IsIn n (xs ++ (n ∷ []))
IsIn-last n [] = inl refl
IsIn-last n (x ∷ xs) = inr (IsIn-last n xs)

HasAll-append : (wanted xs ys : List (List ℕ)) → HasAll wanted xs → HasAll wanted (xs ++ ys)
HasAll-append [] xs ys h = tt
HasAll-append (w ∷ wanted) xs ys (h, hs) = (IsIn-append w xs ys h, HasAll-append wanted xs ys hs)

then_or_fail-done :
    {C : Type 0} (r : C × Bool) (next : C → C × Bool)
    → (r then_or_fail next).1 ≡ true
    → (r.1 ≡ true) × ((r then_or_fail next) ≡ next r.0)
unfolding ◌then_or_fail◌
then_or_fail-done (c, true) next h = (refl, refl)
then_or_fail-done (c, false) next h = absurd (cc h)

module _ {F : Type 0} (db : Sqlite F) (cat : Catalogue db) where
  open db use {Conn, exec}
  open cat use {names, version}

  column_exists-member :
      (c : Conn) (col : List ℕ) → column_exists db c table_name col ≡ member col (names c)
  unfolding column_exists
  column_exists-member c col = ground (arith, cat.names_read c)

  -- The table has grown by some columns.
  abbrev Grown : Conn → Conn → Type 0
  Grown c c' = (new : List (List ℕ)) × (names c' ≡ names c ++ new)

  ensure_column-present :
      (c : Conn) (def : List ℕ)
      → column_exists db c table_name (name_of def) ≡ true
      → ensure_column db c table_name def ≡ (c, true)
  unfolding ensure_column
  ensure_column-present c def e = rw e refl

  ensure_column-absent :
      (c : Conn) (def : List ℕ)
      → column_exists db c table_name (name_of def) ≡ false
      → ensure_column db c table_name def ≡ exec c (alter table_name def)
  unfolding ensure_column
  ensure_column-absent c def e = rw e refl

  -- The statement that adds the column does so where it succeeds.
  abbrev Adds : List ℕ → Type 0
  Adds def =
      (c : Conn)
      → (exec c (alter table_name def)).1 ≡ true
      → names (exec c (alter table_name def)).0 ≡ names c ++ (name_of def ∷ [])

  Adds-column :
      (col : Column)
      → is_plain col ≡ true
      → alter table_name (print_column col) ≡ add_text col
      → name_of (print_column col) ≡ col.name
      → Adds (print_column col)
  Adds-column col plain text name c done =
      ap (λ t. names (exec c t).0) text
      ∙ cat.added c col plain (ap (λ t. (exec c t).1) (sym text) ∙ done)
      ∙ ap (λ n. names c ++ (n ∷ [])) (sym name)

  Adds-motors : All Adds motor_columns
  unfolding alter name_of text_eq is_digit
  Adds-motors = (
    Adds-column (column "motor1_id" "TEXT") refl refl refl,
    (
      Adds-column (column "motor1_tics" "INTEGER") refl refl refl,
      (
        Adds-column (column "motor1_rpm" "INTEGER") refl refl refl,
        (
          Adds-column (column "motor1_temperature_c" "INTEGER") refl refl refl,
          (
            Adds-column (column "motor1_voltage_power_stage_mv" "INTEGER") refl refl refl,
            (
              Adds-column (column "motor1_current_power_stage_ma" "INTEGER") refl refl refl,
              (
                Adds-column (column "motor2_id" "TEXT") refl refl refl,
                (
                  Adds-column (column "motor2_tics" "INTEGER") refl refl refl,
                  (
                    Adds-column (column "motor2_rpm" "INTEGER") refl refl refl,
                    (
                      Adds-column (column "motor2_temperature_c" "INTEGER") refl refl refl,
                      (
                        Adds-column (column "motor2_voltage_power_stage_mv" "INTEGER") refl refl
                            refl,
                        (
                          Adds-column (column "motor2_current_power_stage_ma" "INTEGER") refl refl
                              refl,
                          tt,
                        ),
                      ),
                    ),
                  ),
                ),
              ),
            ),
          ),
        ),
      ),
    ),
  )

  ensure_column-done :
      (c : Conn) (def : List ℕ)
      → Adds def
      → (ensure_column db c table_name def).1 ≡ true
      → let c' = (ensure_column db c table_name def).0 in Grown c c' × IsIn (name_of def) (names c')
  ensure_column-done c def adds h =
      elim (Bool-cases (column_exists db c table_name (name_of def))) [
        | inl present ↦
            let e = ensure_column-present c def present in
            let same = ap (λ (r : Conn × Bool). names r.0) e in
            let found = sym (column_exists-member c (name_of def)) ∙ present in
            (
              ([], same ∙ sym (append-nil (names c))),
              subst (IsIn (name_of def)) (sym same) (member-IsIn (name_of def) (names c) found),
            )
        | inr absent ↦
            let e = ensure_column-absent c def absent in
            let grown =
              ap (λ (r : Conn × Bool). names r.0) e
              ∙ adds c (sym (ap (λ (r : Conn × Bool). r.1) e) ∙ h) in
            (
              (name_of def ∷ [], grown),
              subst (IsIn (name_of def)) (sym grown) (IsIn-last (name_of def) (names c)),
            )
      ]

  Grown-trans : (a b c : Conn) → Grown a b → Grown b c → Grown a c
  Grown-trans a b c (new, e) (more, e₁) =
      (new ++ more, e₁ ∙ ap (λ l. l ++ more) e ∙ append_assoc (names a) new more)

  Grown-HasAll :
      (wanted : List (List ℕ)) (a b : Conn)
      → Grown a b
      → HasAll wanted (names a)
      → HasAll wanted (names b)
  Grown-HasAll wanted a b (new, e) h =
      subst (HasAll wanted) (sym e) (HasAll-append wanted (names a) new h)

  ensure_columns-done :
      (c : Conn) (defs : List (List ℕ))
      → All Adds defs
      → (ensure_columns db c defs).1 ≡ true
      → let c' = (ensure_columns db c defs).0 in Grown c c' × HasAll (map name_of defs) (names c')
  unfolding ensure_columns
  ensure_columns-done c [] adds h = (([], sym (append-nil (names c))), tt)
  ensure_columns-done c (def ∷ defs) (add, adds) h =
      let next : Conn → Conn × Bool = λ c₁. ensure_columns db c₁ defs in
      let first = ensure_column db c table_name def in
      let (done, e) = then_or_fail-done first next h in
      let (grown, present) = ensure_column-done c def add done in
      let (grown₁, others) =
        ensure_columns-done first.0 defs adds (sym (ap (λ (r : Conn × Bool). r.1) e) ∙ h) in
      let last : next first.0 ≡ (first then_or_fail next) = sym e in
      let whole : Grown c (next first.0).0 = Grown-trans c first.0 (next first.0).0 grown grown₁ in
      let kept = Grown-HasAll (name_of def ∷ []) first.0 (next first.0).0 grown₁ (present, tt) in
      subst (λ (r : Conn × Bool). Grown c r.0 × HasAll (map name_of (def ∷ defs)) (names r.0)) last
        (whole, (kept.0, others))

  db_apply_pragmas-names :
      (c : Conn) → (db_apply_pragmas db c).1 ≡ true → names (db_apply_pragmas db c).0 ≡ names c
  unfolding db_apply_pragmas is_digit
  db_apply_pragmas-names c h =
      let second : Conn → Conn × Bool =
        λ c₁. exec c₁ synchronous_pragma then_or_fail λ c₂. exec c₂ foreign_keys_pragma in
      let (done, e) = then_or_fail-done (exec c journal_pragma) second h in
      let c₁ = (exec c journal_pragma).0 in
      let h₁ = sym (ap (λ (r : Conn × Bool). r.1) e) ∙ h in
      let (done₁, e₁) =
        then_or_fail-done (exec c₁ synchronous_pragma) (λ c₂. exec c₂ foreign_keys_pragma) h₁ in
      ap (λ (r : Conn × Bool). names r.0) (e ∙ e₁)
      ∙ cat.pragma_kept (exec c₁ synchronous_pragma).0 (codes "foreign_keys") (codes "ON") refl
      ∙ cat.pragma_kept c₁ (codes "synchronous") (codes "NORMAL") refl
      ∙ cat.pragma_kept c (codes "journal_mode") (codes "WAL") refl

  -- The table is the one that the insert needs, and the version says so.
  abbrev pub IsCurrent : Conn → Type 0
  IsCurrent c = HasAll (map codes columns) (names c) × (version c ≡ pos 2)

  -- The base columns are there, and the steps that add the motors' columns and set the version
  -- succeed.
  motors-IsCurrent :
      (c : Conn)
      → HasBase (names c)
      → let r = ensure_columns db c motor_columns then_or_fail λ c₁. exec c₁ version_pragma in
        r.1 ≡ true → IsCurrent r.0
  unfolding is_digit
  motors-IsCurrent c (base, raw) h =
      let next : Conn → Conn × Bool = λ c₁. exec c₁ version_pragma in
      let first = ensure_columns db c motor_columns in
      let (done, e) = then_or_fail-done first next h in
      let (grown, motors) = ensure_columns-done c motor_columns Adds-motors done in
      let b = Grown-HasAll base_columns c first.0 grown base in
      let r = Grown-HasAll (codes "raw" ∷ []) c first.0 grown raw in
      let text = version_pragma-text in
      let same : names (exec first.0 version_pragma).0 ≡ names first.0 =
        ap (λ t. names (exec first.0 t).0) text
        ∙ cat.pragma_kept first.0 (codes "user_version") (print_unsigned 2) refl in
      let two : version (exec first.0 version_pragma).0 ≡ pos 2 =
        ap (λ t. version (exec first.0 t).0) text
        ∙ cat.versioned first.0 2 (omega arith)
            (ap (λ t. (exec first.0 t).1) (sym text) ∙ sym (ap (λ (r : Conn × Bool). r.1) e) ∙ h) in
      let has : List ℕ → Type 0 = λ n. IsIn n (names first.0) in
      let tail = All-append has (map name_of motor_columns) (codes "raw" ∷ []) motors r in
      let all =
        All-append has base_columns (map name_of motor_columns ++ (codes "raw" ∷ [])) b tail in
      let wanted : HasAll (map codes columns) (names first.0) =
        subst (λ ws. HasAll ws (names first.0)) (sym columns-parts) all in
      subst (λ (r : Conn × Bool). IsCurrent r.0) (sym e)
        (subst (HasAll (map codes columns)) (sym same) wanted, two)

  db_upgrade-IsCurrent :
      (c : Conn)
      → HasBase (names c)
      → (db_upgrade_v1_to_v2 db c).1 ≡ true
      → IsCurrent (db_upgrade_v1_to_v2 db c).0
  unfolding db_upgrade_v1_to_v2
  db_upgrade-IsCurrent c base h =
      let next : Conn → Conn × Bool =
        λ c₁. ensure_columns db c₁ motor_columns then_or_fail λ c₂. exec c₂ version_pragma in
      let first = db_apply_pragmas db c in
      let (done, e) = then_or_fail-done first next h in
      let b = subst HasBase (sym (db_apply_pragmas-names c done)) base in
      subst (λ (r : Conn × Bool). IsCurrent r.0) (sym e)
        (motors-IsCurrent first.0 b (sym (ap (λ (r : Conn × Bool). r.1) e) ∙ h))

  schema-created :
      (c : Conn)
      → (exec c schema).1 ≡ true
      → names c ≡ []
      → names (exec c schema).0 ≡ codes "id" ∷ map codes columns
  schema-created c done fresh =
      let text = schema-create_text in
      ap (λ t. names (exec c t).0) text
      ∙ cat.created c wanted_lines wanted_indexes wanted_plain
          (ap (λ t. (exec c t).1) (sym text) ∙ done) fresh

  schema-kept :
      (c : Conn) (n : List ℕ) (ns : List (List ℕ))
      → (exec c schema).1 ≡ true
      → names c ≡ n ∷ ns
      → names (exec c schema).0 ≡ names c
  schema-kept c n ns done e =
      let text = schema-create_text in
      ap (λ t. names (exec c t).0) text
      ∙ cat.kept c wanted_lines wanted_indexes wanted_plain
          (ap (λ t. (exec c t).1) (sym text) ∙ done) n ns e

  -- After `CREATE TABLE IF NOT EXISTS` the base columns are there.
  created-HasBase :
      (c : Conn)
      → ((names c ≡ []) ⊎ HasBase (names c))
      → (exec c schema).1 ≡ true
      → HasBase (names (exec c schema).0)
  created-HasBase c (inl fresh) done =
      subst HasBase (sym (schema-created c done fresh)) new_table-HasBase
  created-HasBase c (inr old) done = subst HasBase (sym (kept_table (names c) refl old)) old
    where
      kept_table :
          (ns : List (List ℕ)) → names c ≡ ns → HasBase ns → names (exec c schema).0 ≡ names c
      kept_table [] e base = absurd base.0.0
      kept_table (n ∷ ns) e base = schema-kept c n ns done e

  db_migrate-IsCurrent :
      (c : Conn)
      → ((names c ≡ []) ⊎ HasBase (names c))
      → (db_migrate_v2 db c).1 ≡ true
      → IsCurrent (db_migrate_v2 db c).0
  unfolding db_migrate_v2
  db_migrate-IsCurrent c old h =
      let rest : Conn → Conn × Bool =
        λ c₁. ensure_columns db c₁ motor_columns then_or_fail λ c₂. exec c₂ version_pragma in
      let next : Conn → Conn × Bool = λ c₁. exec c₁ schema then_or_fail rest in
      let first = db_apply_pragmas db c in
      let (done, e) = then_or_fail-done first next h in
      let old₁ = subst (λ ns. (ns ≡ []) ⊎ HasBase ns) (sym (db_apply_pragmas-names c done)) old in
      let (made, e₁) =
        then_or_fail-done (exec first.0 schema) rest (sym (ap (λ (r : Conn × Bool). r.1) e) ∙ h) in
      let base = created-HasBase first.0 old₁ made in
      let path : (first then_or_fail next) ≡ rest (exec first.0 schema).0 = e ∙ e₁ in
      subst (λ (r : Conn × Bool). IsCurrent r.0) (sym path)
        (motors-IsCurrent (exec first.0 schema).0 base
          (sym (ap (λ (r : Conn × Bool). r.1) path) ∙ h))

  -- A database that some version of the program left behind: none yet (or an unversioned one), the
  -- first version, or the second.
  abbrev pub IsKnown : Conn → ℤ → Type 0
  IsKnown c (pos zero) = (names c ≡ []) ⊎ HasBase (names c)
  IsKnown c (pos (suc zero)) = HasBase (names c)
  IsKnown c (pos (suc (suc n))) = HasAll (map codes columns) (names c)
  IsKnown c (negsuc n) = Unit {0}

  by_version-IsCurrent :
      (c : Conn) (v : ℤ)
      → version c ≡ v
      → IsKnown c v
      → (by_version db c v).1 ≡ true
      → IsCurrent (by_version db c v).0
  unfolding by_version
  by_version-IsCurrent c (pos zero) e k h = db_migrate-IsCurrent c k h
  by_version-IsCurrent c (pos (suc zero)) e k h = db_upgrade-IsCurrent c k h
  by_version-IsCurrent c (pos (suc (suc zero))) e k h = (k, e)
  by_version-IsCurrent c (pos (suc (suc (suc n)))) e k h = absurd (cc h)
  by_version-IsCurrent c (negsuc n) e k h = absurd (cc h)

  db_ensure_schema-eq :
      (c : Conn) (v : ℤ) → version c ≡ v → db_ensure_schema db c ≡ by_version db c v
  unfolding db_ensure_schema
  db_ensure_schema-eq c v e = ground (arith, cat.version_read c, e)

  current_version : (c : Conn) → by_version db c (pos 2) ≡ (c, true)
  unfolding by_version
  current_version c = refl

  pub db_ensure_schema-IsCurrent :
      (c : Conn)
      → IsKnown c (version c)
      → (db_ensure_schema db c).1 ≡ true
      → let c' = (db_ensure_schema db c).0 in IsCurrent c' × (db_ensure_schema db c' ≡ (c', true))
  db_ensure_schema-IsCurrent c k h =
      let e = db_ensure_schema-eq c (version c) refl in
      let done =
        by_version-IsCurrent c (version c) refl k (sym (ap (λ (r : Conn × Bool). r.1) e) ∙ h) in
      let now = subst (λ (r : Conn × Bool). IsCurrent r.0) (sym e) done in
      let c' = (db_ensure_schema db c).0 in
      (now, db_ensure_schema-eq c' (pos 2) now.1 ∙ current_version c')
