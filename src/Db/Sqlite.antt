-- ===== src/Db/Sqlite.antt =====
-- The SQLite connection as src/infra/persistence/db_sqlite.c and src/app/telemetry_gateway.c use it,
-- and what they rely on. SQLite is not part of the repository.
use telemetry_testbed.Base.{
  ℕ, codes, List, [], ◌∷◌, ◌++◌, Option, none, some, Bool, true, false, ◌≡◌, ◌⊎◌,
}
use telemetry_testbed.Base.Int.{ℤ}
use telemetry_testbed.Db.Row.{Value}

-- A call returns the connection afterwards, and whether it succeeded.
pub record Sqlite (F : Type 0) : Type 1 where
  pub Conn : Type 0
  -- `sqlite3_exec`: SQLITE_OK or not.
  pub exec : Conn → List ℕ → Conn × Bool
  -- The prepared insert, reset, bound to the values and stepped: SQLITE_DONE or not.
  pub insert : Conn → List (Value F) → Conn × Bool
  -- `PRAGMA user_version;`, 0 where it has no row, or `none` where it cannot be prepared.
  pub user_version : Conn → Option ℤ
  -- The column names of `PRAGMA table_info`, or `none` where it cannot be prepared.
  pub table_info : Conn → List ℕ → Option (List (List ℕ))

-- Transactions of a database whose open transaction ends by a COMMIT or a ROLLBACK only. `rows` are the
-- committed rows of the table, and `opened` those that the open transaction has added, if one is
-- open. A BEGIN inside a transaction fails. SQLite can also roll back by itself, after an error such
-- as a full disk: that is `Journal`, and a `Transactions` is a database that does not do so.
pub record Transactions {F : Type 0} (db : Sqlite F) : Type 0 where
  pub rows : db.Conn → List (List (Value F))
  pub opened : db.Conn → Option (List (List (Value F)))
  pub begin_done :
      (c : db.Conn)
      → (db.exec c (codes "BEGIN IMMEDIATE;")).1 ≡ true
      → (rows (db.exec c (codes "BEGIN IMMEDIATE;")).0 ≡ rows c)
        × (opened (db.exec c (codes "BEGIN IMMEDIATE;")).0 ≡ some [])
        × (opened c ≡ none)
  pub begin_refused :
      (c : db.Conn)
      → (db.exec c (codes "BEGIN IMMEDIATE;")).1 ≡ false
      → (rows (db.exec c (codes "BEGIN IMMEDIATE;")).0 ≡ rows c)
        × (opened (db.exec c (codes "BEGIN IMMEDIATE;")).0 ≡ opened c)
  pub insert_done :
      (c : db.Conn) (new : List (List (Value F))) (v : List (Value F))
      → opened c ≡ some new
      → (db.insert c v).1 ≡ true
      → (rows (db.insert c v).0 ≡ rows c) × (opened (db.insert c v).0 ≡ some (new ++ (v ∷ [])))
  pub insert_refused :
      (c : db.Conn) (new : List (List (Value F))) (v : List (Value F))
      → opened c ≡ some new
      → (db.insert c v).1 ≡ false
      → (rows (db.insert c v).0 ≡ rows c) × (opened (db.insert c v).0 ≡ some new)
  pub commit_done :
      (c : db.Conn) (new : List (List (Value F)))
      → opened c ≡ some new
      → (db.exec c (codes "COMMIT;")).1 ≡ true
      → (rows (db.exec c (codes "COMMIT;")).0 ≡ rows c ++ new)
        × (opened (db.exec c (codes "COMMIT;")).0 ≡ none)
  pub commit_refused :
      (c : db.Conn) (new : List (List (Value F)))
      → opened c ≡ some new
      → (db.exec c (codes "COMMIT;")).1 ≡ false
      → (rows (db.exec c (codes "COMMIT;")).0 ≡ rows c)
        × (opened (db.exec c (codes "COMMIT;")).0 ≡ some new)
  pub rolled_back :
      (c : db.Conn) (new : List (List (Value F)))
      → opened c ≡ some new
      → (rows (db.exec c (codes "ROLLBACK;")).0 ≡ rows c)
        × (opened (db.exec c (codes "ROLLBACK;")).0 ≡ none)

-- Transactions as SQLite documents them. An insert or a COMMIT that fails may leave the transaction
-- open or roll it back, and an insert outside a transaction is committed at once.
pub record Journal {F : Type 0} (db : Sqlite F) : Type 0 where
  pub rows : db.Conn → List (List (Value F))
  pub opened : db.Conn → Option (List (List (Value F)))
  pub begin_done :
      (c : db.Conn)
      → (db.exec c (codes "BEGIN IMMEDIATE;")).1 ≡ true
      → (rows (db.exec c (codes "BEGIN IMMEDIATE;")).0 ≡ rows c)
        × (opened (db.exec c (codes "BEGIN IMMEDIATE;")).0 ≡ some [])
        × (opened c ≡ none)
  pub begin_refused :
      (c : db.Conn)
      → (db.exec c (codes "BEGIN IMMEDIATE;")).1 ≡ false
      → (rows (db.exec c (codes "BEGIN IMMEDIATE;")).0 ≡ rows c)
        × (opened (db.exec c (codes "BEGIN IMMEDIATE;")).0 ≡ opened c)
  pub insert_done :
      (c : db.Conn) (new : List (List (Value F))) (v : List (Value F))
      → opened c ≡ some new
      → (db.insert c v).1 ≡ true
      → (rows (db.insert c v).0 ≡ rows c) × (opened (db.insert c v).0 ≡ some (new ++ (v ∷ [])))
  pub insert_refused :
      (c : db.Conn) (new : List (List (Value F))) (v : List (Value F))
      → opened c ≡ some new
      → (db.insert c v).1 ≡ false
      → (rows (db.insert c v).0 ≡ rows c)
        × ((opened (db.insert c v).0 ≡ some new) ⊎ (opened (db.insert c v).0 ≡ none))
  pub autocommit_done :
      (c : db.Conn) (v : List (Value F))
      → opened c ≡ none
      → (db.insert c v).1 ≡ true
      → (rows (db.insert c v).0 ≡ rows c ++ (v ∷ [])) × (opened (db.insert c v).0 ≡ none)
  pub autocommit_refused :
      (c : db.Conn) (v : List (Value F))
      → opened c ≡ none
      → (db.insert c v).1 ≡ false
      → (rows (db.insert c v).0 ≡ rows c) × (opened (db.insert c v).0 ≡ none)
  pub commit_done :
      (c : db.Conn) (new : List (List (Value F)))
      → opened c ≡ some new
      → (db.exec c (codes "COMMIT;")).1 ≡ true
      → (rows (db.exec c (codes "COMMIT;")).0 ≡ rows c ++ new)
        × (opened (db.exec c (codes "COMMIT;")).0 ≡ none)
  pub commit_refused :
      (c : db.Conn) (new : List (List (Value F)))
      → opened c ≡ some new
      → (db.exec c (codes "COMMIT;")).1 ≡ false
      → (rows (db.exec c (codes "COMMIT;")).0 ≡ rows c)
        × ((opened (db.exec c (codes "COMMIT;")).0 ≡ some new)
            ⊎ (opened (db.exec c (codes "COMMIT;")).0 ≡ none))
  pub rolled_back :
      (c : db.Conn)
      → (rows (db.exec c (codes "ROLLBACK;")).0 ≡ rows c)
        × (opened (db.exec c (codes "ROLLBACK;")).0 ≡ none)
