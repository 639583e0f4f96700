-- ===== src/Gateway/Receive.antt =====
-- `on_message` of src/app/telemetry_gateway.c. libprotobuf-c's unpacking is the argument `unpack`,
-- and libmosquitto hands over a message with a payload pointer that is null where the length is 0.
-- The callback is one step here; the source tests `running` first, and takes `stats_mu` and `q_mu` one
-- after the other.
pub mod Arrival
use telemetry_testbed.Base.{
  ℕ, ◌+◌, ◌%◌, ◌^◌, if◌then◌else◌, List, [], ◌∷◌, Option, none, some, Bool, true, false, ◌&&◌,
  length, text_eq,
}
use telemetry_testbed.Base.Int.{ℤ}
use telemetry_testbed.Types.{TelemetryState, StateMessage, Float}
use telemetry_testbed.Gateway.Queue.{Queue, queue_push}
use telemetry_testbed.Gateway.Message.{telemetry_topic_state, decode_sample}
use telemetry_testbed.Gateway.Writer.{Stats}

pub record MqttMessage : Type 0 where
  pub topic : Option (List ℕ)
  pub payload : List ℕ

-- The fields of `struct telemetry_gateway` that the callback uses.
pub record Gateway (F : Type 0) : Type 0 where
  pub running : Bool
  pub queue : Queue (TelemetryState F)
  pub stats : Stats

unfoldable pub count_received : Stats → ℕ → Stats
count_received g len = record g {
  rx_msgs = (g.rx_msgs + 1) % 2 ^ 64;
  rx_bytes = (g.rx_bytes + len) % 2 ^ 64;
}

-- `topic` is not null, and is the snapshot topic.
abbrev pub is_snapshot : Option (List ℕ) → Bool
is_snapshot none = false
is_snapshot (some t) = text_eq t telemetry_topic_state

module _ (f : Float) (unpack : List ℕ → Option (StateMessage f.F)) where
  open f use {F}

  -- What happens behind the counting: `node` is what `calloc` returns in `queue_push`, `now` the
  -- realtime clock, and `alloc` whether the payload's copy gets memory. `none` is a bad address.
  unfoldable pub enqueue : Option ℕ → ℤ → Bool → List ℕ → Gateway F → Option (Gateway F)
  enqueue node now alloc payload g = elim (unpack payload) [
    | none ↦ some g
    | some st ↦ elim (queue_push node g.queue (decode_sample f now alloc payload st)) [
      | none ↦ none
      | some q ↦ some (record g { queue = q })
    ]
  ]

  unfoldable pub on_message : Option ℕ → ℤ → Bool → Gateway F → MqttMessage → Option (Gateway F)
  on_message node now alloc g msg =
      let counted : Gateway F = record g { stats = count_received g.stats (length msg.payload) } in
      if g.running && is_snapshot msg.topic
      then enqueue node now alloc msg.payload counted
      else some g
