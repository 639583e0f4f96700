-- ===== src/Gateway/Pipeline/Reliable.antt =====
-- The pipeline of src/app/telemetry_gateway.c over a database that refuses nothing.
use telemetry_testbed.Base.{
  ℕ, codes, ◌%◌, ◌^◌, ◌≡◌, refl, ap, sym, ◌∙◌, List, [], ◌∷◌, ◌++◌, append-nil, map, Option, none,
  some, Bool, true, arith, length, All, All-append,
}
use telemetry_testbed.Types.{TelemetryState, StateMessage, Float}
use telemetry_testbed.Db.Row.{Value, bind_state}
use telemetry_testbed.Db.Sqlite.{Sqlite, Transactions}
use telemetry_testbed.Gateway.Writer.{
  Round, insert_all, db_writer_begin, db_writer_commit, db_writer_insert_state,
}
use telemetry_testbed.Gateway.Writer.Storing.{insert_all-begun, write_batch-begun}
use telemetry_testbed.Gateway.Queue.Refinement.{samples}
use telemetry_testbed.Gateway.Queue.Fifo.{length-samples}
use telemetry_testbed.Gateway.Pipeline.{
  Phase, testing, popping, finished, writing, World, writer_step, wrote,
}
use telemetry_testbed.Gateway.Pipeline.Outcome.{stored, fate, settle-done}
use telemetry_testbed.Gateway.Pipeline.Trace.{
  Turn, batches, kept, offered, Trace, turn_at, Step, arrive, work, stop, Reach, start, next,
}
use telemetry_testbed.Gateway.Pipeline.Ledger.{in_hand, Reach-Ledger}

-- Outside a transaction BEGIN succeeds, and inside one every insert and COMMIT do.
pub record Works {F : Type 0} (db : Sqlite F) (tx : Transactions db) : Type 0 where
  pub begin_works :
      (c : db.Conn) → tx.opened c ≡ none → (db.exec c (codes "BEGIN IMMEDIATE;")).1 ≡ true
  pub insert_works :
      (c : db.Conn) (new : List (List (Value F))) (v : List (Value F))
      → tx.opened c ≡ some new
      → (db.insert c v).1 ≡ true
  pub commit_works :
      (c : db.Conn) (new : List (List (Value F)))
      → tx.opened c ≡ some new
      → (db.exec c (codes "COMMIT;")).1 ≡ true

module _ (f : Float) (db : Sqlite f.F) (tx : Transactions db) (works : Works db tx) where
  open f use {F}
  open db use {Conn}
  open tx use {rows, opened}

  insert_all-works :
      (c : Conn) (new : List (List (Value F))) (batch : List (TelemetryState F))
      → opened c ≡ some new
      → (insert_all f db c batch).1 ≡ true
  unfolding insert_all db_writer_insert_state
  insert_all-works c new [] o = refl
  insert_all-works c new (s ∷ batch) o =
      let v = bind_state f s in
      let ok = works.insert_works c new v o in
      let (_, o₁) = tx.insert_done c new v o ok in
      ground (arith, ok, insert_all-works (db.insert c v).0 (new ++ (v ∷ [])) batch o₁)

  begin-works : (c : Conn) → opened c ≡ none → (db_writer_begin f db c).1 ≡ true
  unfolding db_writer_begin
  begin-works c o = works.begin_works c o

  commit-works :
      (c : Conn) (new : List (List (Value F)))
      → opened c ≡ some new
      → (db_writer_commit f db c).1 ≡ true
  unfolding db_writer_commit
  commit-works c new o = works.commit_works c new o

  insert_all-begun_works :
      (c : Conn) (batch : List (TelemetryState F))
      → opened c ≡ none
      → (insert_all f db (db_writer_begin f db c).0 batch).1 ≡ true
  unfolding db_writer_begin
  insert_all-begun_works c batch o =
      insert_all-works (db.exec c (codes "BEGIN IMMEDIATE;")).0 [] batch
        (tx.begin_done c (works.begin_works c o)).1

  -- A batch outside a transaction is stored, and leaves none open.
  write_batch-works :
      (alloc : ℕ → Bool) (w : World f db) (batch : List (TelemetryState F)) (t0 t1 : ℕ)
      → opened w.conn ≡ none
      → (fate f db w.conn batch ≡ stored) × (opened (wrote f db alloc w batch t0 t1).conn ≡ none)
  unfolding fate
  write_batch-works alloc w batch t0 t1 o =
      let begun = begin-works w.conn o in
      let ok = insert_all-begun_works w.conn batch o in
      let (r, more, o₁, d) = insert_all-begun f db tx w.conn batch begun in
      let inserted = insert_all f db (db_writer_begin f db w.conn).0 batch in
      let done = commit-works inserted.0 more o₁ in
      let (_, closed) = settle-done f db tx inserted more ok done o₁ in
      let e = write_batch-begun f db alloc w.conn w.gateway.stats batch t0 t1 begun in
      (ground (arith, begun, ok, done), ap (λ (x : Round f db). opened x.conn) e ∙ closed)

  -- No transaction is open between two actions of the writer, and every batch so far was stored.
  record Clear (t : Trace f db) : Type 0 where
    closed : opened t.world.conn ≡ none
    all_stored : All (λ (u : Turn F). u.fate ≡ stored) t.turns

  all-kept :
      (ts : List (Turn F))
      → All (λ (u : Turn F). u.fate ≡ stored) ts
      → (kept ts ≡ batches ts) × (offered ts ≡ batches ts)
  all-kept [] h = (refl, refl)
  all-kept (t ∷ ts) (e, h) =
      let (k, o) = all-kept ts h in (ground (arith, e, k), ground (arith, e, o))

  Clear-still :
      (t : Trace f db) (w : World f db)
      → w.conn ≡ t.world.conn
      → Clear t
      → Clear (record t { world = w; turns = t.turns ++ [] })
  Clear-still t w e h =
      rw append-nil (record { closed = ap opened e ∙ h.closed; all_stored = h.all_stored })

  module _ (unpack : List ℕ → Option (StateMessage F)) (max : ℕ) (c : Conn) where
    work-Clear :
        (t : Trace f db) (alloc : ℕ → Bool) (t0 t1 : ℕ) (w : World f db)
        (p : Phase (TelemetryState F))
        → t.world.phase ≡ p
        → writer_step f db max alloc t0 t1 t.world ≡ some w
        → Clear t
        → Clear (record t { world = w; turns = t.turns ++ turn_at f db alloc t.world.conn p })
    unfolding writer_step
    work-Clear t alloc t0 t1 w testing at e h = Clear-still t w (ground (arith, at, e)) h
    work-Clear t alloc t0 t1 w popping at e h = Clear-still t w (ground (arith, at, e)) h
    work-Clear t alloc t0 t1 w finished at e h = Clear-still t w (ground (arith, at, e)) h
    work-Clear t alloc t0 t1 w (writing batch) at e h =
        let (kept_it, closed) = write_batch-works alloc t.world batch t0 t1 h.closed in
        let same : wrote f db alloc t.world batch t0 t1 ≡ w = ground (arith, at, e) in
        record {
          closed = ap (λ (x : World f db). opened x.conn) (sym same) ∙ closed;
          all_stored = All-append _ t.turns _ h.all_stored (kept_it, tt);
        }

    Step-Clear : {t u : Trace f db} → Step f db unpack max t u → Clear t → Clear u
    Step-Clear (arrive address now alloc msg g fresh e) h = record {
      closed = h.closed;
      all_stored = h.all_stored;
    }
    Step-Clear {t} (work alloc t0 t1 w e) h = work-Clear t alloc t0 t1 w t.world.phase refl e h
    Step-Clear stop h = record { closed = h.closed; all_stored = h.all_stored }

    Reach-Clear : {t : Trace f db} → opened c ≡ none → Reach f db unpack max c t → Clear t
    Reach-Clear o start = record { closed = o; all_stored = tt }
    Reach-Clear o (next r st) = Step-Clear st (Reach-Clear o r)

    pub rows-batches :
        {t : Trace f db}
        → opened c ≡ none
        → Reach f db unpack max c t
        → rows t.world.conn ≡ rows c ++ map (bind_state f) (batches t.turns)
    rows-batches {t} o r =
        (Reach-Ledger f db tx unpack max c r).stored
        ∙ ap (λ x. rows c ++ map (bind_state f) x) (all-kept t.turns (Reach-Clear o r).all_stored).0

    -- Let SQLite keep its transactions and refuse nothing, and let none be open at the start. After
    -- any interleaving of messages, actions of the writer and the stop of the gateway, no sample that
    -- was accepted is lost, repeated or out of order: each has its row in the table, behind the
    -- first rows, or is in the writer's hand, or waits in the queue, and `db_rows` and `q_len` count
    -- the rows and those that wait, modulo 2 ^ 64.
    pub every_sample_stored :
        {t : Trace f db}
        → opened c ≡ none
        → Reach f db unpack max c t
        → (written waiting : List (TelemetryState F)) × (t.accepted
            ≡ written ++ (in_hand t.world.phase ++ waiting))
          × (rows t.world.conn ≡ rows c ++ map (bind_state f) written)
          × (t.world.gateway.stats.db_rows ≡ length written % 2 ^ 64)
          × (t.world.gateway.queue.q_len ≡ length waiting % 2 ^ 64)
    every_sample_stored {t} o r =
        let l = Reach-Ledger f db tx unpack max c r in
        let (_, all) = all-kept t.turns (Reach-Clear o r).all_stored in
        (
          batches t.turns,
          samples l.cells,
          l.order,
          rows-batches o r,
          l.rows_counted ∙ ap (λ x. length x % 2 ^ 64) all,
          l.holds.len ∙ ap (λ n. n % 2 ^ 64) (sym (length-samples l.cells)),
        )
