-- ===== src/Gateway/Writer/Losses.antt =====
-- What `writer_thread` of src/app/telemetry_gateway.c does where the database refuses a statement.
use telemetry_testbed.Base.{
  codes, ℕ, ◌+◌, ◌%◌, ◌^◌, ◌≡◌, refl, ap, ◌∙◌, inl, inr, List, [], ◌∷◌, ◌++◌, map, some, Bool, true,
  false, arith, length, Bool-cases,
}
use telemetry_testbed.Types.{TelemetryState, Float}
use telemetry_testbed.Db.Row.{Value}
use telemetry_testbed.Db.Sqlite.{Sqlite, Transactions, Journal}
use telemetry_testbed.Db.History.Contents.{Ample}
use telemetry_testbed.Gateway.Live.{live_json, telemetry_state_to_json_alloc}
use telemetry_testbed.Gateway.Writer.{
  Stats, count_commit, insert_all, settle, broadcasts, Round, write_batch, db_writer_begin,
  db_writer_commit,
}
use telemetry_testbed.Gateway.Writer.Storing.{
  write_batch-begun, write_batch-refused, insert_all-journal,
}

module _ (f : Float) (db : Sqlite f.F) where
  open f use {F}
  open db use {Conn}

  live_json-alloc :
      (alloc : ℕ → Bool) (s : TelemetryState F)
      → Ample alloc
      → telemetry_state_to_json_alloc f alloc s ≡ some (live_json f s)
  unfolding telemetry_state_to_json_alloc
  live_json-alloc alloc s ample = ground (arith, ample (length (live_json f s) + 1))

  broadcasts-Ample :
      (alloc : ℕ → Bool) (batch : List (TelemetryState F))
      → Ample alloc
      → broadcasts f db alloc batch ≡ map (live_json f) batch
  unfolding broadcasts
  broadcasts-Ample alloc [] ample = refl
  broadcasts-Ample alloc (s ∷ batch) ample =
      ground (arith, live_json-alloc alloc s ample, broadcasts-Ample alloc batch ample)

  -- The rounds of the writer, one for each batch, with the clock's readings around each.
  unfoldable pub run_writer :
      (ℕ → Bool) → Conn → Stats → List (List (TelemetryState F) × ℕ × ℕ) → Round f db
  run_writer alloc c g [] = record { conn = c; stats = g; sent = [] }
  run_writer alloc c g ((batch, t0, t1) ∷ more) =
      let w = write_batch f db alloc c g batch t0 t1 in
      let rest = run_writer alloc w.conn w.stats more in record rest { sent = w.sent ++ rest.sent }

  count_commit-db_rows :
      (g : Stats) (n t0 t1 : ℕ) → (count_commit g n t0 t1).db_rows ≡ (g.db_rows + n) % 2 ^ 64
  unfolding count_commit
  count_commit-db_rows g n t0 t1 = refl

  module _ (tx : Transactions db) where
    open tx use {rows, opened, commit_refused, rolled_back}

    pub settle-lost :
        (r : Conn × Bool) (new : List (List (Value F)))
        → r.1 ≡ false
        → opened r.0 ≡ some new
        → rows (settle f db r) ≡ rows r.0
    unfolding settle
    settle-lost (c, false) new e o = (rolled_back c new o).0
    settle-lost (c, true) new e o = cc

    pub settle-refused :
        (r : Conn × Bool) (new : List (List (Value F)))
        → r.1 ≡ true
        → (db_writer_commit f db r.0).1 ≡ false
        → opened r.0 ≡ some new
        → (rows (settle f db r) ≡ rows r.0) × (opened (settle f db r) ≡ some new)
    unfolding settle
    settle-refused (c, false) new e no_commit o = cc
    settle-refused (c, true) new e no_commit o = commit_refused c new o no_commit

  module _ (journal : Journal db) where
    open journal use {rows, opened, begin_done}

    no_begin :
        (c : Conn) (new : List (List (Value F)))
        → opened c ≡ some new
        → (db_writer_begin f db c).1 ≡ false
    unfolding db_writer_begin
    no_begin c new o = elim (Bool-cases (db.exec c (codes "BEGIN IMMEDIATE;")).1) [
      | inl begun ↦ absurd (cc (begin_done c begun).2)
      | inr refused ↦ refused
    ]

    refused_begin :
        (c : Conn)
        → (db_writer_begin f db c).1 ≡ false
        → (rows (db_writer_begin f db c).0 ≡ rows c)
          × (opened (db_writer_begin f db c).0 ≡ opened c)
    unfolding db_writer_begin
    refused_begin c e = journal.begin_refused c e

    open_transaction-blocks :
        (alloc : ℕ → Bool) (c : Conn) (g : Stats) (new : List (List (Value F)))
        (batches : List (List (TelemetryState F) × ℕ × ℕ))
        → opened c ≡ some new
        → let w = run_writer alloc c g batches in
          (rows w.conn ≡ rows c) × (w.stats ≡ g) × (w.sent ≡ [])
    unfolding run_writer
    open_transaction-blocks alloc c g new [] o = (refl, refl, refl)
    open_transaction-blocks alloc c g new ((batch, t0, t1) ∷ more) o =
        let refused = no_begin c new o in
        let (r, o₁) = refused_begin c refused in
        let c₁ = (db_writer_begin f db c).0 in
        let (r₂, g₂, s₂) = open_transaction-blocks alloc c₁ g new more (o₁ ∙ o) in
        ground (arith, write_batch-refused f db alloc c g batch t0 t1 refused, r, r₂, g₂, s₂)

    settle_commit : (r : Conn × Bool) → r.1 ≡ true → settle f db r ≡ (db_writer_commit f db r.0).0
    unfolding settle
    settle_commit (c, true) e = refl
    settle_commit (c, false) e = cc

    refused_commit :
        (c : Conn) (new : List (List (Value F)))
        → opened c ≡ some new
        → (db_writer_commit f db c).1 ≡ false
        → rows (db_writer_commit f db c).0 ≡ rows c
    unfolding db_writer_commit
    refused_commit c new o e = (journal.commit_refused c new o e).0

    -- Let SQLite commit, roll back and refuse as it documents, and let memory not run out. Let the
    -- inserts of a batch succeed and its COMMIT fail, and let SQLite leave the transaction open, as it
    -- does with SQLITE_BUSY. The batch is then counted in `db_rows` and broadcast as a whole, and none
    -- of it is stored. From then on the writer stores nothing, counts nothing and broadcasts nothing,
    -- whatever batches come.
    pub commit_refused-blocks :
        (alloc : ℕ → Bool) (c : Conn) (g : Stats) (batch : List (TelemetryState F)) (t0 t1 : ℕ)
        (batches : List (List (TelemetryState F) × ℕ × ℕ)) (new : List (List (Value F)))
        → Ample alloc
        → (db_writer_begin f db c).1 ≡ true
        → (insert_all f db (db_writer_begin f db c).0 batch).1 ≡ true
        → (db_writer_commit f db (insert_all f db (db_writer_begin f db c).0 batch).0).1 ≡ false
        → opened (db_writer_commit f db (insert_all f db (db_writer_begin f db c).0 batch).0).0
          ≡ some new
        → let w = write_batch f db alloc c g batch t0 t1 in
          let z = run_writer alloc w.conn w.stats batches in
          (w.stats.db_rows ≡ (g.db_rows + length batch) % 2 ^ 64)
          × (w.sent ≡ map (live_json f) batch)
          × (rows z.conn ≡ rows c)
          × (z.stats ≡ w.stats)
          × (z.sent ≡ [])
    commit_refused-blocks alloc c g batch t0 t1 batches new ample begun stored no_commit still =
        let (r, done) = insert_all-journal f db journal c batch begun in
        let inserted = insert_all f db (db_writer_begin f db c).0 batch in
        let e = write_batch-begun f db alloc c g batch t0 t1 begun in
        let w = write_batch f db alloc c g batch t0 t1 in
        let conn : w.conn ≡ (db_writer_commit f db inserted.0).0 =
          ap (λ (x : Round f db). x.conn) e ∙ settle_commit inserted stored in
        let (r₂, g₂, s₂) =
          open_transaction-blocks alloc w.conn w.stats new batches (ap opened conn ∙ still) in
        (
          ap (λ (x : Round f db). x.stats.db_rows) e ∙ count_commit-db_rows g (length batch) t0 t1,
          ap (λ (x : Round f db). x.sent) e ∙ broadcasts-Ample alloc batch ample,
          elim done [
            | inl l ↦
                r₂
                ∙ ap rows conn
                ∙ refused_commit inserted.0 l.more l.open_with no_commit
                ∙ l.same
                ∙ r
            | inr i ↦ absurd (ground (arith, i.failed, stored))
          ],
          g₂,
          s₂,
        )
