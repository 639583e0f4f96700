-- ===== src/Gateway/Writer/Storing.antt =====
-- What a batch of `writer_thread` of src/app/telemetry_gateway.c leaves in the table.
use telemetry_testbed.Base.{
  codes, ℕ, ◌≡◌, refl, sym, ◌∙◌, ◌⊎◌, inl, inr, List, [], ◌∷◌, ◌++◌, append_assoc, append-nil, map,
  some, Bool, true, false, ◌&&◌, arith, length, Bool-cases,
}
use telemetry_testbed.Types.{TelemetryState, Float}
use telemetry_testbed.Db.Row.{Value, bind_state}
use telemetry_testbed.Db.Sqlite.{Sqlite, Transactions, Journal}
use telemetry_testbed.Gateway.Writer.{
  Stats, count_commit, insert_all, settle, broadcasts, write_batch, db_writer_begin,
}
use telemetry_testbed.Gateway.Writer.Interrupted.{IsOpen, IsInterrupted, insert_all-IsInterrupted}

module _ (f : Float) (db : Sqlite f.F) where
  open f use {F}
  open db use {Conn}

  pub write_batch-begun :
      (alloc : ℕ → Bool) (c : Conn) (g : Stats) (batch : List (TelemetryState F)) (t0 t1 : ℕ)
      → (db_writer_begin f db c).1 ≡ true
      → write_batch f db alloc c g batch t0 t1 ≡ record {
        conn = settle f db (insert_all f db (db_writer_begin f db c).0 batch);
        stats = count_commit g (length batch) t0 t1;
        sent = broadcasts f db alloc batch;
      }
  unfolding write_batch
  write_batch-begun alloc c g batch t0 t1 e = ground (arith, e)

  pub write_batch-refused :
      (alloc : ℕ → Bool) (c : Conn) (g : Stats) (batch : List (TelemetryState F)) (t0 t1 : ℕ)
      → (db_writer_begin f db c).1 ≡ false
      → write_batch f db alloc c g batch t0 t1
        ≡ record { conn = (db_writer_begin f db c).0; stats = g; sent = [] }
  unfolding write_batch
  write_batch-refused alloc c g batch t0 t1 e = ground (arith, e)

module _ (f : Float) (db : Sqlite f.F) (tx : Transactions db) where
  open f use {F}
  open db use {Conn, exec, insert}
  open tx use {
    rows, opened, begin_done, begin_refused, insert_done, insert_refused, commit_done,
    commit_refused, rolled_back,
  }

  all_stored :
      (c : Conn) (v : List (Value F)) (batch : List (TelemetryState F))
      (new more : List (List (Value F)))
      → ((insert_all f db (insert c v).0 batch).1 ≡ false)
        ⊎ (more ≡ (new ++ (v ∷ [])) ++ map (bind_state f) batch)
      → (((insert c v).1 && (insert_all f db (insert c v).0 batch).1) ≡ false)
        ⊎ (more ≡ new ++ (v ∷ map (bind_state f) batch))
  all_stored c v batch new more (inl e) = inl (ground (arith, e))
  all_stored c v batch new more (inr e) = inr (e ∙ append_assoc new (v ∷ []) _)

  -- Inside a transaction the inserts leave the committed rows alone. If all succeed, the
  -- transaction has added the rows of the batch, in order.
  insert_all-opened :
      (c : Conn) (new : List (List (Value F))) (batch : List (TelemetryState F))
      → opened c ≡ some new
      → (rows (insert_all f db c batch).0 ≡ rows c)
        × (more : List (List (Value F))) × (opened (insert_all f db c batch).0 ≡ some more)
        × (((insert_all f db c batch).1 ≡ false) ⊎ (more ≡ new ++ map (bind_state f) batch))
  unfolding insert_all
  insert_all-opened c new [] o = (refl, new, o, inr (sym (append-nil new)))
  insert_all-opened c new (s ∷ batch) o =
      let v = bind_state f s in
      elim (Bool-cases (insert c v).1) [
        | inl stored ↦
            let (r, o₁) = insert_done c new v o stored in
            let (r₂, more, o₂, d) = insert_all-opened (insert c v).0 (new ++ (v ∷ [])) batch o₁ in
            (r₂ ∙ r, more, o₂, all_stored c v batch new more d)
        | inr refused ↦
            let (r, o₁) = insert_refused c new v o refused in
            let (r₂, more, o₂, d) = insert_all-opened (insert c v).0 new batch o₁ in
            (r₂ ∙ r, more, o₂, inl (ground (arith, refused)))
      ]

  pub insert_all-begun :
      (c : Conn) (batch : List (TelemetryState F))
      → (db_writer_begin f db c).1 ≡ true
      → let c₁ = (db_writer_begin f db c).0 in
        (rows (insert_all f db c₁ batch).0 ≡ rows c)
        × (more : List (List (Value F))) × (opened (insert_all f db c₁ batch).0 ≡ some more)
        × (((insert_all f db c₁ batch).1 ≡ false) ⊎ (more ≡ map (bind_state f) batch))
  unfolding db_writer_begin
  insert_all-begun c batch e =
      let (r, o, _) = begin_done c e in
      let (r₁, more, o₁, d) = insert_all-opened (exec c (codes "BEGIN IMMEDIATE;")).0 [] batch o in
      (r₁ ∙ r, more, o₁, d)

  pub begin_refused-lem :
      (c : Conn)
      → (db_writer_begin f db c).1 ≡ false
      → (rows (db_writer_begin f db c).0 ≡ rows c) × (opened (db_writer_begin f db c).0 ≡ opened c)
  unfolding db_writer_begin
  begin_refused-lem c e = begin_refused c e

module _ (f : Float) (db : Sqlite f.F) (journal : Journal db) where
  open f use {F}
  open db use {Conn}
  open journal use {rows, opened}

  pub settle-rolled_back : (r : Conn × Bool) → r.1 ≡ false → rows (settle f db r) ≡ rows r.0
  unfolding settle
  settle-rolled_back (c, false) e = (journal.rolled_back c).0
  settle-rolled_back (c, true) e = cc

  pub insert_all-journal :
      (c : Conn) (batch : List (TelemetryState F))
      → (db_writer_begin f db c).1 ≡ true
      → let c₁ = (db_writer_begin f db c).0 in
        (rows c₁ ≡ rows c) × (IsOpen f db journal c₁ [] batch ⊎ IsInterrupted f db journal c₁ batch)
  unfolding db_writer_begin
  insert_all-journal c batch e =
      let (r, o, _) = journal.begin_done c e in
      (r, insert_all-IsInterrupted f db journal (db.exec c (codes "BEGIN IMMEDIATE;")).0 [] batch o)
