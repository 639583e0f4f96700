-- ===== src/Gateway/Receive/Arrival.antt =====
-- Each branch of `on_message` of src/app/telemetry_gateway.c.
use telemetry_testbed.Base.{
  ℕ, ◌≡◌, ◌≢◌, refl, ◌∙◌, List, [], ◌∷◌, ◌++◌, Option, none, some, Bool, true, false, ◌&&◌, ◌⊎◌,
  inl, inr, arith, codes, text_eq, ap, length, Bool-cases, Option-cases,
}
use telemetry_testbed.Base.Compare.{text_eq-true}
use telemetry_testbed.Base.Int.{ℤ}
use telemetry_testbed.Types.{TelemetryState, StateMessage, Float}
use telemetry_testbed.Gateway.Queue.{Queue, queue_push}
use telemetry_testbed.Gateway.Queue.Refinement.{Holds, queue_push-Holds}
use telemetry_testbed.Gateway.Message.{decode_sample}
use telemetry_testbed.Gateway.Receive.{
  MqttMessage, Gateway, count_received, is_snapshot, enqueue, on_message,
}

-- The guard of the callback, apart.
pub accepts-true :
    (running : Bool) (topic : Option (List ℕ))
    → (running && is_snapshot topic) ≡ true
    → (running ≡ true) × (topic ≡ some (codes "/robot/v1/telemetry/state"))
accepts-true running none h = absurd (ground (arith, h))
accepts-true running (some t) h =
    let runs : running ≡ true = ground (arith, h) in
    let same : text_eq t (codes "/robot/v1/telemetry/state") ≡ true = ground (arith, h) in
    (runs, ap some (text_eq-true t (codes "/robot/v1/telemetry/state") same))

snapshot_lem : is_snapshot (some (codes "/robot/v1/telemetry/state")) ≡ true
unfolding text_eq
snapshot_lem = refl

accepts-false :
    (running : Bool) (topic : Option (List ℕ))
    → (running && is_snapshot topic) ≡ false
    → (running ≡ false) ⊎ (topic ≢ some (codes "/robot/v1/telemetry/state"))
accepts-false false topic h = inl refl
accepts-false true topic h = inr (λ e. ground (arith, h, ap is_snapshot e ∙ snapshot_lem))

module _ (f : Float) (unpack : List ℕ → Option (StateMessage f.F)) where
  open f use {F}

  abbrev counted : Gateway F → MqttMessage → Gateway F
  counted g msg = record g { stats = count_received g.stats (length msg.payload) }

  on_message-counts :
      (address : Option ℕ) (now : ℤ) (alloc : Bool) (g : Gateway F) (msg : MqttMessage)
      → (g.running && is_snapshot msg.topic) ≡ true
      → on_message f unpack address now alloc g msg
        ≡ enqueue f unpack address now alloc msg.payload (counted g msg)
  unfolding on_message
  on_message-counts address now alloc g msg on = ground (arith, on)

  pub on_message-off :
      (address : Option ℕ) (now : ℤ) (alloc : Bool) (g : Gateway F) (msg : MqttMessage)
      → (g.running && is_snapshot msg.topic) ≡ false
      → on_message f unpack address now alloc g msg ≡ some g
  unfolding on_message
  on_message-off address now alloc g msg off = ground (arith, off)

  enqueue-bad :
      (address : Option ℕ) (now : ℤ) (alloc : Bool) (payload : List ℕ) (g : Gateway F)
      → unpack payload ≡ none
      → enqueue f unpack address now alloc payload g ≡ some g
  unfolding enqueue
  enqueue-bad address now alloc payload g bad = ground (arith, bad)

  enqueue-good :
      (address : Option ℕ) (now : ℤ) (alloc : Bool) (payload : List ℕ) (g : Gateway F)
      (st : StateMessage F) (q : Queue (TelemetryState F))
      → unpack payload ≡ some st
      → queue_push address g.queue (decode_sample f now alloc payload st) ≡ some q
      → enqueue f unpack address now alloc payload g ≡ some (record g { queue = q })
  unfolding enqueue
  enqueue-good address now alloc payload g st q good pushed = ground (arith, good, pushed)

  -- Let the queue hold some samples and `calloc` give an address that is not NULL and has no node.
  -- Then either the gateway does not run or the topic is another than /robot/v1/telemetry/state, and
  -- the message changes nothing, or it runs and the topic is that one, and the message is counted,
  -- with its length. If it cannot be unpacked the queue stays as it was; if it can, the
  -- decoded sample stands behind those that wait. No bad address is met.
  pub on_message-cases :
      (n : ℕ) (now : ℤ) (alloc : Bool) (g : Gateway F) (msg : MqttMessage)
      (cells : List (ℕ × TelemetryState F))
      → n ≢ 0
      → g.queue.heap n ≡ none
      → Holds g.queue cells
      → (((g.running ≡ false) ⊎ (msg.topic ≢ some (codes "/robot/v1/telemetry/state")))
          × (on_message f unpack (some n) now alloc g msg ≡ some g))
        ⊎ ((g' : Gateway F) × (g.running ≡ true)
            × (msg.topic ≡ some (codes "/robot/v1/telemetry/state"))
            × (on_message f unpack (some n) now alloc g msg ≡ some g')
            × (g'.stats ≡ count_received g.stats (length msg.payload))
            × (g'.running ≡ true)
            × (((unpack msg.payload ≡ none) × Holds g'.queue cells)
                ⊎ ((st : StateMessage F) × (unpack msg.payload ≡ some st)
                    × Holds g'.queue
                        (cells ++ ((n, decode_sample f now alloc msg.payload st) ∷ [])))))
  on_message-cases n now alloc g msg cells z e r =
      elim (Bool-cases (g.running && is_snapshot msg.topic)) [
        | inl on ↦
            let (runs, topic) = accepts-true g.running msg.topic on in
            let c : Gateway F = counted g msg in
            elim (Option-cases (unpack msg.payload)) [
              | inl bad ↦ inr (
                c,
                runs,
                topic,
                on_message-counts (some n) now alloc g msg on
                    ∙ enqueue-bad (some n) now alloc msg.payload c bad,
                refl,
                ground (arith, on),
                inl (bad, r),
              )
              | inr (st, good) ↦
                  let s = decode_sample f now alloc msg.payload st in
                  let (q, pushed, r') = queue_push-Holds g.queue n s cells z e r in
                  inr (
                    record c { queue = q },
                    runs,
                    topic,
                    on_message-counts (some n) now alloc g msg on
                        ∙ enqueue-good (some n) now alloc msg.payload c st q good pushed,
                    refl,
                    ground (arith, on),
                    inr (st, good, r'),
                  )
            ]
        | inr off ↦
            inl (accepts-false g.running msg.topic off, on_message-off (some n) now alloc g msg off)
      ]
