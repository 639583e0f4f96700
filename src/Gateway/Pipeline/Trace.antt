-- ===== src/Gateway/Pipeline/Trace.antt =====
-- Every interleaving of the MQTT callback, the writer thread and the stop of
-- src/app/telemetry_gateway.c, with what came in and what became of it written down beside it.
use telemetry_testbed.Base.{
  ℕ, ◌+◌, ◌≡◌, ◌≢◌, if◌then◌else◌, List, [], ◌∷◌, ◌++◌, Option, none, some, Bool, true, ◌&&◌,
}
use telemetry_testbed.Base.Int.{ℤ}
use telemetry_testbed.Types.{TelemetryState, StateMessage, Float}
use telemetry_testbed.Db.Sqlite.{Sqlite}
use telemetry_testbed.Gateway.Queue.{Node, empty}
use telemetry_testbed.Gateway.Writer.{Stats, broadcasts}
use telemetry_testbed.Gateway.Message.{decode_sample}
use telemetry_testbed.Gateway.Receive.{MqttMessage, Gateway, is_snapshot, on_message}
use telemetry_testbed.Gateway.Pipeline.{
  Phase, testing, popping, finished, writing, World, writer_step, halt,
}
use telemetry_testbed.Gateway.Pipeline.Outcome.{Fate, fate, kept_of, offered_of, commits_of}

-- `calloc` gives NULL, or an address that is not NULL and has no node.
abbrev pub IsFresh : {A : Type 0} → (ℕ → Option (Node A)) → Option ℕ → Type 0
IsFresh h none = Unit {0}
IsFresh h (some n) = (n ≢ 0) × (h n ≡ none)

module _ (f : Float) (unpack : List ℕ → Option (StateMessage f.F)) where
  open f use {F}

  -- The payloads that a message adds to those received, and the samples to those accepted.
  abbrev pub received_of : Gateway F → MqttMessage → List (List ℕ)
  received_of g msg = if g.running && is_snapshot msg.topic then msg.payload ∷ [] else []

  abbrev pub decoded : ℤ → Bool → List ℕ → Option (StateMessage F) → List (TelemetryState F)
  decoded now alloc payload none = []
  decoded now alloc payload (some st) = decode_sample f now alloc payload st ∷ []

  abbrev pub accepted_of : Option ℕ → ℤ → Bool → Gateway F → MqttMessage → List (TelemetryState F)
  accepted_of none now alloc g msg = []
  accepted_of (some n) now alloc g msg =
      if g.running && is_snapshot msg.topic
      then decoded now alloc msg.payload (unpack msg.payload)
      else []

-- A batch that the writer has handled, `malloc` while it did, and its fate.
pub record Turn (F : Type 0) : Type 0 where
  pub batch : List (TelemetryState F)
  pub alloc : ℕ → Bool
  pub fate : Fate

module _ {F : Type 0} where
  abbrev pub batches : List (Turn F) → List (TelemetryState F)
  batches [] = []
  batches (t ∷ ts) = t.batch ++ batches ts

  abbrev pub kept : List (Turn F) → List (TelemetryState F)
  kept [] = []
  kept (t ∷ ts) = kept_of t.fate t.batch ++ kept ts

  abbrev pub offered : List (Turn F) → List (TelemetryState F)
  offered [] = []
  offered (t ∷ ts) = offered_of t.fate t.batch ++ offered ts

  abbrev pub commits : List (Turn F) → ℕ
  commits [] = 0
  commits (t ∷ ts) = commits_of t.fate + commits ts

module _ (f : Float) (db : Sqlite f.F) where
  open f use {F}

  abbrev pub heard : List (Turn F) → List (List ℕ)
  heard [] = []
  heard (t ∷ ts) = broadcasts f db t.alloc (offered_of t.fate t.batch) ++ heard ts

  -- The machine, the payloads received, the samples accepted and the batches handled.
  pub record Trace : Type 0 where
    pub world : World f db
    pub received : List (List ℕ)
    pub accepted : List (TelemetryState F)
    pub turns : List (Turn F)

  -- The batch that an action of the writer handles.
  abbrev pub turn_at : (ℕ → Bool) → db.Conn → Phase (TelemetryState F) → List (Turn F)
  turn_at alloc c testing = []
  turn_at alloc c popping = []
  turn_at alloc c finished = []
  turn_at alloc c (writing batch) =
      record { batch = batch; alloc = alloc; fate = fate f db c batch } ∷ []

  abbrev no_counts : Stats
  no_counts = record {
    rx_msgs = 0;
    rx_bytes = 0;
    db_rows = 0;
    commit_count = 0;
    commit_ns_sum = 0;
    commit_ns_max = 0;
  }

  -- The gateway as `telemetry_gateway_start` leaves it.
  abbrev pub initial : db.Conn → Trace
  initial c = record {
    world = record {
      gateway = record { running = true; queue = empty; stats = no_counts };
      conn = c;
      phase = testing;
      sent = [];
    };
    received = [];
    accepted = [];
    turns = [];
  }

  module _ (unpack : List ℕ → Option (StateMessage F)) (max : ℕ) where
    pub data Step (t : Trace) : Trace → Type 0 where
      arrive :
          (address : Option ℕ) (now : ℤ) (alloc : Bool) (msg : MqttMessage) (g : Gateway F)
          → IsFresh t.world.gateway.queue.heap address
          → on_message f unpack address now alloc t.world.gateway msg ≡ some g
          → Step t (record t {
            world = record (t.world) { gateway = g };
            received = t.received ++ received_of f unpack t.world.gateway msg;
            accepted = t.accepted ++ accepted_of f unpack address now alloc t.world.gateway msg;
          })
      work :
          (alloc : ℕ → Bool) (t0 t1 : ℕ) (w : World f db)
          → writer_step f db max alloc t0 t1 t.world ≡ some w
          → Step t
              (record t { world = w; turns = t.turns ++ turn_at alloc t.world.conn t.world.phase })
      stop : Step t (record t { world = halt f db t.world })

    pub data Reach (c : db.Conn) : Trace → Type 0 where
      start : Reach c (initial c)
      next : {t u : Trace} → Reach c t → Step t u → Reach c u
