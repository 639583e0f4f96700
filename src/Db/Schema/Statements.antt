-- ===== src/Db/Schema/Statements.antt =====
-- The statements of the schema section of src/infra/persistence/db_sqlite.c as SQLite reads them: printed
-- from the names that stand in them.
use telemetry_testbed.Base.{
  ℕ, ◌==◌, ◌^◌, ◌<◌, ◌≡◌, leb, List, [], ◌∷◌, ◌++◌, map, some, Bool, true, false, ◌&&◌, ◌||◌, not,
  codes, text_eq, is_digit, print_unsigned,
}
use telemetry_testbed.Base.Int.{ℤ, pos}
use telemetry_testbed.Db.Sqlite.{Sqlite}

-- A column's name, and its type with its constraints.
pub record Column : Type 0 where
  pub name : List ℕ
  pub decl : List ℕ

pub record Index : Type 0 where
  pub name : List ℕ
  pub keys : List (List ℕ)

abbrev pub print_column : Column → List ℕ
print_column col = col.name ++ (b' ' ∷ col.decl)

abbrev pub join : List ℕ → List (List ℕ) → List ℕ
join sep [] = []
join sep (x ∷ []) = x
join sep (x ∷ y ∷ xs) = x ++ (sep ++ join sep (y ∷ xs))

abbrev pub print_line : List Column → List ℕ
print_line cols = codes "  " ++ join (codes ", ") (map print_column cols)

abbrev print_indexes : List Index → List ℕ
print_indexes [] = []
print_indexes (i ∷ is) =
    codes "CREATE INDEX IF NOT EXISTS "
    ++ (i.name
        ++ (codes " ON telemetry_state("
            ++ (join (codes ", ") i.keys ++ (codes ");\n" ++ print_indexes is))))

-- The table `telemetry_state` with its columns, laid out in lines, and indexes on it.
abbrev pub create_text : List (List Column) → List Index → List ℕ
create_text lines indexes =
    codes "CREATE TABLE IF NOT EXISTS telemetry_state (\n"
    ++ (join (codes ",\n") (map print_line lines) ++ (codes "\n);\n" ++ print_indexes indexes))

abbrev pub add_text : Column → List ℕ
add_text col = codes "ALTER TABLE telemetry_state ADD COLUMN " ++ (print_column col ++ codes ";")

abbrev pub pragma_text : List ℕ → List ℕ → List ℕ
pragma_text key value = codes "PRAGMA " ++ (key ++ (b'=' ∷ (value ++ codes ";")))

abbrev pub all_names : List (List Column) → List (List ℕ)
all_names [] = []
all_names (cols ∷ lines) = map (λ (col : Column). col.name) cols ++ all_names lines

abbrev pub every : {A : Type 0} → (A → Bool) → List A → Bool
every p [] = true
every p (x ∷ xs) = p x && every p xs

abbrev pub is_word_char : ℕ → Bool
is_word_char c = (leb b'a' c && leb c b'z') || (is_digit c || (c == b'_'))

abbrev pub is_word : List ℕ → Bool
is_word [] = false
is_word (c ∷ s) = every is_word_char (c ∷ s)

-- The words with which a constraint of the table begins, in place of a column.
abbrev is_reserved : List ℕ → Bool
is_reserved s =
    text_eq s (codes "constraint")
    || (text_eq s (codes "primary")
        || (text_eq s (codes "unique")
            || (text_eq s (codes "check") || text_eq s (codes "foreign"))))

abbrev pub is_decl_char : ℕ → Bool
is_decl_char c = (leb b'A' c && leb c b'Z') || (c == b' ')

-- A column whose name is a word in lower case, and whose type is made of words in upper case.
abbrev pub is_plain : Column → Bool
is_plain col = is_word col.name && (not (is_reserved col.name) && every is_decl_char col.decl)

abbrev pub is_plain_line : List Column → Bool
is_plain_line [] = false
is_plain_line (col ∷ cols) = every is_plain (col ∷ cols)

-- There is a column, and every line has one.
abbrev pub are_plain : List (List Column) → List Index → Bool
are_plain [] indexes = false
are_plain (line ∷ lines) indexes =
    every is_plain_line (line ∷ lines)
    && every (λ (i : Index). is_word i.name && every is_word i.keys) indexes

-- The catalogue as SQLite documents it. `names` are the columns of the table `telemetry_state`,
-- none where it does not exist, and `version` is the user version. `CREATE TABLE IF NOT EXISTS` makes
-- the columns that stand in it, and leaves an old table alone; `ADD COLUMN` adds the one that it names;
-- a pragma leaves the columns alone, and `user_version` sets the version.
pub record Catalogue {F : Type 0} (db : Sqlite F) : Type 0 where
  pub names : db.Conn → List (List ℕ)
  pub version : db.Conn → ℤ
  pub version_read : (c : db.Conn) → db.user_version c ≡ some (version c)
  pub names_read : (c : db.Conn) → db.table_info c (codes "telemetry_state") ≡ some (names c)
  pub created :
      (c : db.Conn) (lines : List (List Column)) (indexes : List Index)
      → are_plain lines indexes ≡ true
      → (db.exec c (create_text lines indexes)).1 ≡ true
      → names c ≡ []
      → names (db.exec c (create_text lines indexes)).0 ≡ all_names lines
  pub kept :
      (c : db.Conn) (lines : List (List Column)) (indexes : List Index)
      → are_plain lines indexes ≡ true
      → (db.exec c (create_text lines indexes)).1 ≡ true
      → (name : List ℕ) (more : List (List ℕ)) → names c ≡ name ∷ more
      → names (db.exec c (create_text lines indexes)).0 ≡ names c
  pub added :
      (c : db.Conn) (col : Column)
      → is_plain col ≡ true
      → (db.exec c (add_text col)).1 ≡ true
      → names (db.exec c (add_text col)).0 ≡ names c ++ (col.name ∷ [])
  pub pragma_kept :
      (c : db.Conn) (key value : List ℕ)
      → is_word key ≡ true
      → names (db.exec c (pragma_text key value)).0 ≡ names c
  pub versioned :
      (c : db.Conn) (n : ℕ)
      → n < 2 ^ 31
      → (db.exec c (pragma_text (codes "user_version") (print_unsigned n))).1 ≡ true
      → version (db.exec c (pragma_text (codes "user_version") (print_unsigned n))).0 ≡ pos n
