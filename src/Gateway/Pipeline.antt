-- ===== src/Gateway/Pipeline.antt =====
-- The MQTT callback, the queue and the loop of `writer_thread` of src/app/telemetry_gateway.c as one
-- machine: `on_message` can come between any two actions of the writer, and
-- `telemetry_gateway_stop` can clear `running` at any time.
pub mod Outcome
pub mod Trace
pub mod Turns
pub mod Arrival
pub mod Ledger
pub mod Reliable
pub mod Drain
pub mod Replies
pub mod Stop
use telemetry_testbed.Base.{
  ℕ, zero, suc, ◌≡◌, ◌≢◌, if◌then◌else◌, List, [], ◌∷◌, ◌++◌, Option, none, some, Bool, true, false,
  ◌&&◌,
}
use telemetry_testbed.Base.Int.{ℤ, pos, negsuc}
use telemetry_testbed.Types.{TelemetryState, StateMessage, Float}
use telemetry_testbed.Db.Sqlite.{Sqlite}
use telemetry_testbed.Gateway.Queue.{waits, takes, queue_pop_batch, empty}
use telemetry_testbed.Gateway.Writer.{Stats, write_batch}
use telemetry_testbed.Gateway.Message.{decode_sample}
use telemetry_testbed.Gateway.Receive.{MqttMessage, Gateway, is_snapshot, on_message}

-- `BATCH`, or 1 where the `calloc` of the buffer fails.
unfoldable pub maxn : ℤ → Bool → ℕ
maxn batch_size false = 1
maxn (pos zero) true = 50
maxn (pos (suc n)) true = suc n
maxn (negsuc n) true = 50

-- Where the writer stands: before the test of its loop, in `queue_pop_batch`, behind it with the
-- samples in `buf`, or behind the loop.
pub data Phase (A : Type 0) : Type 0 where
  testing popping finished : Phase A
  writing : List A → Phase A

-- What the writer does until it next waits for something: `none` is a bad address.
module _ (f : Float) (db : Sqlite f.F) where
  open f use {F}
  open db use {Conn}

  pub record World : Type 0 where
    pub gateway : Gateway F
    pub conn : Conn
    pub phase : Phase (TelemetryState F)
    pub sent : List (List ℕ)

  -- `if (n <= 0) continue;`
  abbrev pub after_pop : List (TelemetryState F) → Phase (TelemetryState F)
  after_pop [] = testing
  after_pop (s ∷ batch) = writing (s ∷ batch)

  -- Behind `queue_pop_batch`: the transaction, the counters and the broadcasts.
  abbrev pub wrote : (ℕ → Bool) → World → List (TelemetryState F) → ℕ → ℕ → World
  wrote alloc w batch t0 t1 =
      let r = write_batch f db alloc w.conn w.gateway.stats batch t0 t1 in
      record {
        gateway = record (w.gateway) { stats = r.stats };
        conn = r.conn;
        phase = testing;
        sent = w.sent ++ r.sent;
      }

  unfoldable pub writer_step : ℕ → (ℕ → Bool) → ℕ → ℕ → World → Option World
  writer_step max alloc t0 t1 w = at w.phase
    where
      at : Phase (TelemetryState F) → Option World
      at testing = some (record w { phase = if w.gateway.running then popping else finished })
      at popping = elim (queue_pop_batch w.gateway.running w.gateway.queue max) [
        | waits ↦ some w
        | takes none ↦ none
        | takes (some (batch, q)) ↦
            some (record w { gateway = record (w.gateway) { queue = q }; phase = after_pop batch })
      ]
      at (writing batch) = some (wrote alloc w batch t0 t1)
      at finished = some w

  -- The first statement of `telemetry_gateway_stop`.
  abbrev pub halt : World → World
  halt w = record w { gateway = record (w.gateway) { running = false } }
