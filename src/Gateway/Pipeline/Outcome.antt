-- ===== src/Gateway/Pipeline/Outcome.antt =====
-- What becomes of the batches of `writer_thread` of src/app/telemetry_gateway.c.
use telemetry_testbed.Base.{
  ℕ, ◌+◌, ◌%◌, ◌^◌, ◌≡◌, refl, inl, inr, List, [], ◌++◌, append-nil, map, Bool, true, false, arith,
  length, Bool-cases, none, some,
}
use telemetry_testbed.Types.{TelemetryState, Float}
use telemetry_testbed.Db.Row.{Value, bind_state}
use telemetry_testbed.Db.Sqlite.{Sqlite, Transactions}
use telemetry_testbed.Gateway.Writer.{
  Stats, count_commit, insert_all, settle, broadcasts, write_batch, db_writer_begin,
  db_writer_commit,
}
use telemetry_testbed.Gateway.Writer.Storing.{
  insert_all-begun, write_batch-begun, write_batch-refused, begin_refused-lem,
}
use telemetry_testbed.Gateway.Writer.Losses.{settle-lost, settle-refused}

-- The batch finds no transaction; an insert fails; the commit fails; or all succeeds.
pub data Fate : Type 0 where
  refused undone uncommitted stored : Fate

-- By whether `BEGIN`, all the inserts and `COMMIT` succeed.
abbrev fate_of : Bool → Bool → Bool → Fate
fate_of false inserted committed = refused
fate_of true false committed = undone
fate_of true true false = uncommitted
fate_of true true true = stored

module _ {A : Type 0} where
  -- The samples of a batch that reach the table, and those that are counted and broadcast.
  abbrev pub kept_of : Fate → List A → List A
  kept_of stored batch = batch
  kept_of refused batch = []
  kept_of undone batch = []
  kept_of uncommitted batch = []

  abbrev pub offered_of : Fate → List A → List A
  offered_of refused batch = []
  offered_of stored batch = batch
  offered_of undone batch = batch
  offered_of uncommitted batch = batch

abbrev pub commits_of : Fate → ℕ
commits_of refused = 0
commits_of stored = 1
commits_of undone = 1
commits_of uncommitted = 1

module _ (f : Float) (db : Sqlite f.F) where
  open f use {F}
  open db use {Conn}

  unfoldable pub fate : Conn → List (TelemetryState F) → Fate
  fate c batch =
      let begun = db_writer_begin f db c in
      let inserted = insert_all f db begun.0 batch in
      fate_of begun.1 inserted.1 (db_writer_commit f db inserted.0).1

  count_commit-counts :
      (g : Stats) (n t0 t1 : ℕ)
      → ((count_commit g n t0 t1).db_rows ≡ (g.db_rows + n) % 2 ^ 64)
        × ((count_commit g n t0 t1).commit_count ≡ (g.commit_count + 1) % 2 ^ 64)
        × ((count_commit g n t0 t1).rx_msgs ≡ g.rx_msgs)
        × ((count_commit g n t0 t1).rx_bytes ≡ g.rx_bytes)
  unfolding count_commit
  count_commit-counts g n t0 t1 = (refl, refl, refl, refl)

  fate-refused :
      (c : Conn) (batch : List (TelemetryState F))
      → (db_writer_begin f db c).1 ≡ false
      → fate c batch ≡ refused
  unfolding fate
  fate-refused c batch e = ground (arith, e)

  offered-begun :
      (c : Conn) (batch : List (TelemetryState F))
      → (db_writer_begin f db c).1 ≡ true
      → (offered_of (fate c batch) batch ≡ batch) × (commits_of (fate c batch) ≡ 1)
  unfolding fate
  offered-begun c batch e = ground (arith, e)

  module _ (tx : Transactions db) where
    open tx use {rows, opened, commit_done, rolled_back}

    -- What is broadcast, and the counters after a batch, from the true numbers that they had counted
    -- before.
    pub write_batch-counts :
        (alloc : ℕ → Bool) (c : Conn) (g : Stats) (batch : List (TelemetryState F)) (t0 t1 n k : ℕ)
        → g.db_rows ≡ n % 2 ^ 64
        → g.commit_count ≡ k % 2 ^ 64
        → let w = write_batch f db alloc c g batch t0 t1 in
          (w.sent ≡ broadcasts f db alloc (offered_of (fate c batch) batch))
          × (w.stats.db_rows ≡ (n + length (offered_of (fate c batch) batch)) % 2 ^ 64)
          × (w.stats.commit_count ≡ (k + commits_of (fate c batch)) % 2 ^ 64)
          × (w.stats.rx_msgs ≡ g.rx_msgs)
          × (w.stats.rx_bytes ≡ g.rx_bytes)
    write_batch-counts alloc c g batch t0 t1 n k hn hk =
        elim (Bool-cases (db_writer_begin f db c).1) [
          | inl begun ↦
              let (o, one) = offered-begun c batch begun in
              rw (write_batch-begun f db alloc c g batch t0 t1 begun, o, one)
                (let (r, m, a, b) = count_commit-counts g (length batch) t0 t1 in
                  (refl, omega (arith, r, hn), omega (arith, m, hk), a, b))
          | inr no_begin ↦
              rw
                (
                  write_batch-refused f db alloc c g batch t0 t1 no_begin,
                  fate-refused c batch no_begin,
                )
                (unfold broadcasts in (refl, omega (arith, hn), omega (arith, hk), refl, refl))
        ]

    pub settle-done :
        (r : Conn × Bool) (new : List (List (Value F)))
        → r.1 ≡ true
        → (db_writer_commit f db r.0).1 ≡ true
        → opened r.0 ≡ some new
        → (rows (settle f db r) ≡ rows r.0 ++ new) × (opened (settle f db r) ≡ none)
    unfolding settle db_writer_commit
    settle-done (c, false) new e done o = absurd (ground (arith, e))
    settle-done (c, true) new e done o = commit_done c new o done

    write_batch-begun_rows :
        (alloc : ℕ → Bool) (c : Conn) (g : Stats) (batch : List (TelemetryState F)) (t0 t1 : ℕ)
        → (db_writer_begin f db c).1 ≡ true
        → rows (write_batch f db alloc c g batch t0 t1).conn
          ≡ rows c ++ map (bind_state f) (kept_of (fate c batch) batch)
    unfolding fate
    write_batch-begun_rows alloc c g batch t0 t1 begun =
        let inserted = insert_all f db (db_writer_begin f db c).0 batch in
        let (r, more, o, d) = insert_all-begun f db tx c batch begun in
        let e = write_batch-begun f db alloc c g batch t0 t1 begun in
        elim (Bool-cases inserted.1) [
          | inr lost ↦
              ground (arith, e, r, settle-lost f db tx inserted more lost o, append-nil (rows c))
          | inl all ↦ elim (Bool-cases (db_writer_commit f db inserted.0).1) [
            | inr no_commit ↦
                let (same, _) = settle-refused f db tx inserted more all no_commit o in
                ground (arith, e, r, same, append-nil (rows c))
            | inl done ↦
                let (grown, _) = settle-done inserted more all done o in
                ground (arith, e, r, grown, d)
          ]
        ]

    -- The table after a batch: its old rows, and then those of the samples that were kept.
    pub write_batch-rows :
        (alloc : ℕ → Bool) (c : Conn) (g : Stats) (batch : List (TelemetryState F)) (t0 t1 : ℕ)
        → rows (write_batch f db alloc c g batch t0 t1).conn
          ≡ rows c ++ map (bind_state f) (kept_of (fate c batch) batch)
    write_batch-rows alloc c g batch t0 t1 = elim (Bool-cases (db_writer_begin f db c).1) [
      | inl begun ↦ write_batch-begun_rows alloc c g batch t0 t1 begun
      | inr no_begin ↦
          let (same, _) = begin_refused-lem f db tx c no_begin in
          let e = write_batch-refused f db alloc c g batch t0 t1 no_begin in
          ground (arith, e, same, fate-refused c batch no_begin, append-nil (rows c))
    ]
