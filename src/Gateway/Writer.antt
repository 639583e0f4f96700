-- ===== src/Gateway/Writer.antt =====
-- The body of the loop of `writer_thread` of src/app/telemetry_gateway.c for one batch, with
-- `db_writer_begin`, `db_writer_commit` and `db_writer_insert_state` of
-- src/infra/persistence/db_sqlite.c. The counters are 64 bits wide; the sum and the maximum of the
-- commit times are int64_t nanoseconds, which the model does not let overflow.
pub mod Interrupted
pub mod Storing
pub mod Losses
use telemetry_testbed.Base.{
  codes, ℕ, ◌+◌, ◌-◌, ◌%◌, ◌^◌, ltb, if◌then◌else◌, List, [], ◌∷◌, ◌++◌, Option, none, some, Bool,
  true, false, ◌&&◌, length,
}
use telemetry_testbed.Types.{TelemetryState, Float}
use telemetry_testbed.Db.Row.{Value, bind_state}
use telemetry_testbed.Db.Sqlite.{Sqlite}
use telemetry_testbed.Gateway.Live.{telemetry_state_to_json_alloc}

pub record Stats : Type 0 where
  pub rx_msgs : ℕ
  pub rx_bytes : ℕ
  pub db_rows : ℕ
  pub commit_count : ℕ
  pub commit_ns_sum : ℕ
  pub commit_ns_max : ℕ

-- `t0` and `t1` are the readings of the monotonic clock around the transaction.
unfoldable pub count_commit : Stats → ℕ → ℕ → ℕ → Stats
count_commit g n t0 t1 =
    let dt = if ltb t0 t1 then t1 - t0 else 0 in
    record g {
      db_rows = (g.db_rows + n) % 2 ^ 64;
      commit_count = (g.commit_count + 1) % 2 ^ 64;
      commit_ns_sum = g.commit_ns_sum + dt;
      commit_ns_max = if ltb g.commit_ns_max dt then dt else g.commit_ns_max;
    }

module _ (f : Float) (db : Sqlite f.F) where
  open f use {F}
  open db use {Conn, exec, insert}

  unfoldable pub db_writer_begin : Conn → Conn × Bool
  db_writer_begin c = exec c (codes "BEGIN IMMEDIATE;")

  unfoldable pub db_writer_commit : Conn → Conn × Bool
  db_writer_commit c = exec c (codes "COMMIT;")

  unfoldable pub db_writer_insert_state : Conn → TelemetryState F → Conn × Bool
  db_writer_insert_state c s = insert c (bind_state f s)

  -- The first `for` loop: every sample is inserted, also after one has failed. The Boolean is `ok`.
  unfoldable pub insert_all : Conn → List (TelemetryState F) → Conn × Bool
  unfolding db_writer_insert_state
  insert_all c [] = (c, true)
  insert_all c (s ∷ batch) =
      let (c₁, stored) = db_writer_insert_state c s in
      let (c₂, ok) = insert_all c₁ batch in (c₂, stored && ok)

  -- `if (ok) commit; else ROLLBACK;`, neither result of which is looked at.
  unfoldable pub settle : Conn × Bool → Conn
  unfolding db_writer_commit
  settle (c, true) = (db_writer_commit c).0
  settle (c, false) = (exec c (codes "ROLLBACK;")).0

  -- The texts that are handed to `ws_server_broadcast`, in order.
  unfoldable pub broadcasts : (ℕ → Bool) → List (TelemetryState F) → List (List ℕ)
  unfolding telemetry_state_to_json_alloc
  broadcasts alloc [] = []
  broadcasts alloc (s ∷ batch) = elim (telemetry_state_to_json_alloc f alloc s) [
    | none ↦ broadcasts alloc batch
    | some json ↦ json ∷ broadcasts alloc batch
  ]

  pub record Round : Type 0 where
    pub conn : Conn
    pub stats : Stats
    pub sent : List (List ℕ)

  unfoldable pub write_batch : (ℕ → Bool) → Conn → Stats → List (TelemetryState F) → ℕ → ℕ → Round
  unfolding db_writer_begin
  write_batch alloc c g batch t0 t1 = begun (db_writer_begin c)
    where
      begun : Conn × Bool → Round
      begun (c₁, false) = record { conn = c₁; stats = g; sent = [] }
      begun (c₁, true) = record {
        conn = settle (insert_all c₁ batch);
        stats = count_commit g (length batch) t0 t1;
        sent = broadcasts alloc batch;
      }
