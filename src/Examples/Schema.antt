-- ===== src/Examples/Schema.antt =====
-- The schema functions on a catalogue of column names and a version.
use telemetry_testbed.Base.{
  ℕ, ◌≡◌, ◌==◌, ◌<◌, ◌^◌, refl, ap, sym, ◌∙◌, ◌||◌, map, append-nil, List, [], ◌∷◌, ◌++◌,
  append_assoc, some, Bool, true, false, codes, drop, text_eq, is_digit, starts_with,
  print_unsigned, if◌then◌else◌, arith,
}
use telemetry_testbed.Base.Int.{ℤ, pos}
use telemetry_testbed.Db.Sqlite.{Sqlite}
use telemetry_testbed.Db.Schema.{
  member, alter, db_upgrade_v1_to_v2, ◌then_or_fail◌, db_ensure_schema,
}
use telemetry_testbed.Db.Schema.Statements.{
  Column, Index, Catalogue, print_column, join, print_line, create_text, pragma_text, all_names,
  every, is_word_char, is_word, is_decl_char, is_plain, is_plain_line, are_plain,
}
use telemetry_testbed.Db.Schema.Upgrade.{
  IsCurrent, HasBase, base_columns, all_in, all_in-HasAll, db_ensure_schema-IsCurrent,
}
use telemetry_testbed.Programs.{digits_value}
use telemetry_testbed.Programs.Knobs.{digits_value-print}

record Master : Type 0 where
  names : List (List ℕ)
  version : ℤ

-- Up to the first space.
unfoldable first_word : List ℕ → List ℕ
first_word [] = []
first_word (c ∷ s) = let rest = c ∷ first_word s in if c == b' ' then [] else rest

-- The version that a pragma sets, if it is the one that does.
unfoldable version_after : ℤ → List ℕ → ℤ
unfolding starts_with digits_value
version_after v sql =
    if starts_with sql (codes "PRAGMA user_version=") then pos (digits_value (drop 20 sql) 0) else v

-- Reading the columns of a table: before a name, within one, or in a type.
data Place : Type 0 where
  before : Place
  within : List ℕ → Place
  in_type : Place

-- The names up to the line that ends without a comma.
unfoldable scan : Place → List ℕ → List (List ℕ)
scan p [] = []
scan before (c ∷ s) = elim ((c == b' ') || (c == 10)) [
  | true ↦ scan before s
  | false ↦ scan (within (c ∷ [])) s
]
scan (within w) (c ∷ s) = elim (c == b' ') [
  | true ↦ w ∷ scan in_type s
  | false ↦ scan (within (w ++ (c ∷ []))) s
]
scan in_type (c ∷ s) = elim (c == b',') [
  | true ↦ scan before s
  | false ↦ elim (c == 10) [ true ↦ [] | false ↦ scan in_type s ]
]

abbrev create_on : Master → List (List ℕ) → List (List ℕ) → Master × Bool
create_on m new [] = (record m { names = new }, true)
create_on m new (n ∷ ns) = (m, true)

-- The statements, told apart by their first byte.
unfoldable obey : Master → List ℕ → Master × Bool
unfolding first_word version_after scan
obey m [] = (m, false)
obey m (c ∷ sql) =
    if c == b'C'
    then create_on m (scan before (drop 44 sql)) m.names
    else if c == b'A'
    then (record m { names = m.names ++ (first_word (drop 38 sql) ∷ []) }, true)
    else if c == b'P'
    then (record m { version = version_after m.version (c ∷ sql) }, true)
    else (m, false)

first_word-every :
    (s rest : List ℕ) → every is_word_char s ≡ true → first_word (s ++ (b' ' ∷ rest)) ≡ s
unfolding first_word is_digit
first_word-every [] rest h = refl
first_word-every (c ∷ s) rest h =
    let other : (c == b' ') ≡ false = ground (arith, h) in
    let more : every is_word_char s ≡ true = ground (arith, h) in
    rw other (ap (◌∷◌ c) (first_word-every s rest more))

is_word-every : (s : List ℕ) → is_word s ≡ true → every is_word_char s ≡ true
is_word-every [] h = refl
is_word-every (c ∷ s) h = h

added_name :
    (col : Column) → is_plain col ≡ true → first_word (print_column col ++ codes ";") ≡ col.name
added_name col h =
    let word : is_word col.name ≡ true = ground (arith, h) in
    ap first_word (append_assoc col.name (b' ' ∷ col.decl) (codes ";"))
    ∙ first_word-every col.name (col.decl ++ codes ";") (is_word-every col.name word)

scan_letter :
    (w : List ℕ) (c : ℕ) (s : List ℕ)
    → (c == b' ') ≡ false
    → scan (within w) (c ∷ s) ≡ scan (within (w ++ (c ∷ []))) s
unfolding scan
scan_letter w c s h = ground (arith, h)

scan-within :
    (w s rest : List ℕ)
    → every is_word_char s ≡ true
    → scan (within w) (s ++ (b' ' ∷ rest)) ≡ (w ++ s) ∷ scan in_type rest
unfolding is_digit
scan-within w [] rest h = unfold scan in ap (λ n. n ∷ scan in_type rest) (sym (append-nil w))
scan-within w (c ∷ s) rest h =
    let other : (c == b' ') ≡ false = ground (arith, h) in
    let more : every is_word_char s ≡ true = ground (arith, h) in
    scan_letter w c (s ++ (b' ' ∷ rest)) other
    ∙ scan-within (w ++ (c ∷ [])) s rest more
    ∙ ap (λ n. n ∷ scan in_type rest) (append_assoc w (c ∷ []) s)

scan_type_char :
    (c : ℕ) (s : List ℕ)
    → (c == b',') ≡ false
    → (c == 10) ≡ false
    → scan in_type (c ∷ s) ≡ scan in_type s
unfolding scan
scan_type_char c s comma newline = ground (arith, comma, newline)

scan-in_type :
    (s rest : List ℕ) → every is_decl_char s ≡ true → scan in_type (s ++ rest) ≡ scan in_type rest
scan-in_type [] rest h = refl
scan-in_type (c ∷ s) rest h =
    let comma : (c == b',') ≡ false = ground (arith, h) in
    let newline : (c == 10) ≡ false = ground (arith, h) in
    let more : every is_decl_char s ≡ true = ground (arith, h) in
    scan_type_char c (s ++ rest) comma newline ∙ scan-in_type s rest more

scan_first :
    (c : ℕ) (s : List ℕ)
    → ((c == b' ') || (c == 10)) ≡ false
    → scan before (c ∷ s) ≡ scan (within (c ∷ [])) s
unfolding scan
scan_first c s h = ground (arith, h)

scan-word :
    (s rest : List ℕ) → is_word s ≡ true → scan before (s ++ (b' ' ∷ rest)) ≡ s ∷ scan in_type rest
unfolding is_digit
scan-word [] rest h = absurd (cc h)
scan-word (c ∷ s) rest h =
    let other : ((c == b' ') || (c == 10)) ≡ false = ground (arith, h) in
    let more : every is_word_char s ≡ true = ground (arith, h) in
    scan_first c (s ++ (b' ' ∷ rest)) other ∙ scan-within (c ∷ []) s rest more

scan-column :
    (col : Column) (rest : List ℕ)
    → is_plain col ≡ true
    → scan before (print_column col ++ rest) ≡ col.name ∷ scan in_type rest
scan-column col rest h =
    let word : is_word col.name ≡ true = ground (arith, h) in
    let decl : every is_decl_char col.decl ≡ true = ground (arith, h) in
    ap (scan before) (append_assoc col.name (b' ' ∷ col.decl) rest)
    ∙ scan-word col.name (col.decl ++ rest) word
    ∙ ap (λ l. col.name ∷ l) (scan-in_type col.decl rest decl)

next_column : (rest : List ℕ) → scan in_type (codes ", " ++ rest) ≡ scan before rest
unfolding scan
next_column rest = refl

next_line : (rest : List ℕ) → scan in_type (codes ",\n" ++ rest) ≡ scan before rest
unfolding scan
next_line rest = refl

last_line : (rest : List ℕ) → scan in_type (codes "\n" ++ rest) ≡ []
unfolding scan
last_line rest = refl

line_start : (rest : List ℕ) → scan before (codes "  " ++ rest) ≡ scan before rest
unfolding scan
line_start rest = refl

abbrev names_of : List Column → List (List ℕ)
names_of cols = map (λ (col : Column). col.name) cols

scan-columns :
    (cols : List Column) (rest : List ℕ)
    → is_plain_line cols ≡ true
    → scan before (join (codes ", ") (map print_column cols) ++ rest)
      ≡ names_of cols ++ scan in_type rest
scan-columns [] rest h = absurd (cc h)
scan-columns (col ∷ []) rest h = scan-column col rest (ground (arith, h))
scan-columns (col ∷ next ∷ cols) rest h =
    let more = join (codes ", ") (map print_column (next ∷ cols)) in
    ap (scan before) (append_assoc (print_column col) (codes ", " ++ more) rest)
    ∙ scan-column col (codes ", " ++ (more ++ rest)) (ground (arith, h))
    ∙ ap (λ l. col.name ∷ l)
        (next_column (more ++ rest) ∙ scan-columns (next ∷ cols) rest (ground (arith, h)))

scan-line :
    (line : List Column) (rest : List ℕ)
    → is_plain_line line ≡ true
    → scan before (print_line line ++ rest) ≡ names_of line ++ scan in_type rest
scan-line line rest h =
    line_start (join (codes ", ") (map print_column line) ++ rest) ∙ scan-columns line rest h

scan-lines :
    (lines : List (List Column)) (line : List Column) (rest : List ℕ)
    → every is_plain_line (line ∷ lines) ≡ true
    → scan before (join (codes ",\n") (map print_line (line ∷ lines)) ++ (codes "\n" ++ rest))
      ≡ all_names (line ∷ lines)
scan-lines [] line rest h =
    scan-line line (codes "\n" ++ rest) (ground (arith, h))
    ∙ ap (◌++◌ (names_of line)) (last_line rest)
scan-lines (next ∷ lines) line rest h =
    let more = join (codes ",\n") (map print_line (next ∷ lines)) in
    ap (scan before) (append_assoc (print_line line) (codes ",\n" ++ more) (codes "\n" ++ rest))
    ∙ scan-line line (codes ",\n" ++ (more ++ (codes "\n" ++ rest))) (ground (arith, h))
    ∙ ap (◌++◌ (names_of line))
        (next_line (more ++ (codes "\n" ++ rest)) ∙ scan-lines lines next rest (ground (arith, h)))

created_names :
    (lines : List (List Column)) (indexes : List Index)
    → are_plain lines indexes ≡ true
    → scan before (drop 45 (create_text lines indexes)) ≡ all_names lines
created_names [] indexes h = absurd (cc h)
created_names (line ∷ lines) indexes h = scan-lines lines line _ (ground (arith, h))

version_set :
    (v : ℤ) (n : ℕ)
    → n < 2 ^ 31
    → version_after v (pragma_text (codes "user_version") (print_unsigned n)) ≡ pos n
unfolding version_after starts_with print_unsigned
version_set v n h =
    ap pos
      (digits_value-print 20 n (codes ";") (omega arith) ∙ unfold digits_value is_digit in refl)

abbrev book : Sqlite ℕ
book = record {
  Conn = Master;
  exec = obey;
  insert = λ m v. (m, false);
  user_version = λ m. some m.version;
  table_info = λ m table. some m.names;
}

abbrev blank : Master
blank = record { names = []; version = pos 0 }

abbrev first_version : Master
first_version = record { names = base_columns ++ (codes "raw" ∷ []); version = pos 1 }

book-Catalogue : Catalogue book
unfolding obey
book-Catalogue = record {
  names = λ m. m.names;
  version = λ m. m.version;
  version_read = λ m. refl;
  names_read = λ m. refl;
  created = λ m lines indexes plain e fresh.
      ap (λ l. (create_on m (scan before (drop 45 (create_text lines indexes))) l).0.names) fresh
      ∙ created_names lines indexes plain;
  kept = λ m lines indexes plain e n ns old.
      ap (λ l. (create_on m (scan before (drop 45 (create_text lines indexes))) l).0.names) old;
  added = λ m col plain e. ap (λ n. m.names ++ (n ∷ [])) (added_name col plain);
  pragma_kept = λ m key value plain. refl;
  versioned = λ m n small e. version_set m.version n small;
}

old_upgrades : (db_ensure_schema book first_version).1 ≡ true
unfolding db_ensure_schema obey db_upgrade_v1_to_v2 ◌then_or_fail◌ alter text_eq
old_upgrades = refl

first_version-HasBase : HasBase first_version.names
unfolding all_in member text_eq
first_version-HasBase = (
  all_in-HasAll base_columns first_version.names refl,
  all_in-HasAll (codes "raw" ∷ []) first_version.names refl,
)

-- The first version, with the columns of the motors' added to it.
old_upgraded : IsCurrent book book-Catalogue (db_ensure_schema book first_version).0
old_upgraded =
    (db_ensure_schema-IsCurrent book book-Catalogue first_version
      (unfold book-Catalogue in first_version-HasBase) old_upgrades).0
