-- ===== src/Gateway/Pipeline/Arrival.antt =====
-- A message's effect on the queue and the counters of src/app/telemetry_gateway.c, whether `calloc`
-- gives a node or not.
use telemetry_testbed.Base.{
  ℕ, ◌+◌, ◌%◌, ◌^◌, ◌≡◌, ◌≢◌, refl, ap, sym, subst, ◌∙◌, ◌⊎◌, inl, inr, List, [], ◌∷◌, ◌++◌,
  append-nil, Option, none, some, Bool, true, false, ◌&&◌, arith, length, length-append, Bool-cases,
  Option-cases,
}
use telemetry_testbed.Base.Int.{ℤ}
use telemetry_testbed.Types.{TelemetryState, StateMessage, Float}
use telemetry_testbed.Gateway.Queue.{queue_push}
use telemetry_testbed.Gateway.Queue.Refinement.{Holds, samples}
use telemetry_testbed.Gateway.Writer.{Stats}
use telemetry_testbed.Gateway.Message.{decode_sample}
use telemetry_testbed.Gateway.Receive.{
  MqttMessage, Gateway, is_snapshot, enqueue, on_message, count_received,
}
use telemetry_testbed.Gateway.Receive.Arrival.{accepts-true, on_message-cases, on_message-off}
use telemetry_testbed.Gateway.Pipeline.Trace.{IsFresh, received_of, accepted_of, decoded}

abbrev pub bytes : List (List ℕ) → ℕ
bytes [] = 0
bytes (p ∷ ps) = length p + bytes ps

-- The counters of received messages, from their true numbers.
abbrev pub Counts : Stats → List (List ℕ) → Type 0
Counts g received = (g.rx_msgs ≡ length received % 2 ^ 64) × (g.rx_bytes ≡ bytes received % 2 ^ 64)

pub bytes-append : (xs ys : List (List ℕ)) → bytes (xs ++ ys) ≡ bytes xs + bytes ys
bytes-append [] ys = omega arith
bytes-append (p ∷ ps) ys = omega (arith, bytes-append ps ys)

count_received-Counts :
    (g : Stats) (received : List (List ℕ)) (payload : List ℕ)
    → Counts g received
    → Counts (count_received g (length payload)) (received ++ (payload ∷ []))
unfolding count_received
count_received-Counts g received payload (m, b) = (
  omega (arith, m, length-append received (payload ∷ [])),
  omega (arith, b, bytes-append received (payload ∷ [])),
)

module _ (f : Float) (unpack : List ℕ → Option (StateMessage f.F)) where
  open f use {F}

  -- What a message does, off or on the topic, by the counters and the queue.
  on_message-lost :
      (now : ℤ) (alloc : Bool) (g g' : Gateway F) (msg : MqttMessage)
      → on_message f unpack none now alloc g msg ≡ some g'
      → (((g.running && is_snapshot msg.topic) ≡ false) × (g ≡ g'))
        ⊎ (((g.running && is_snapshot msg.topic) ≡ true)
            × (g'.stats ≡ count_received g.stats (length msg.payload))
            × (g'.queue ≡ g.queue))
  unfolding on_message enqueue queue_push
  on_message-lost now alloc g g' msg e = elim (Bool-cases (g.running && is_snapshot msg.topic)) [
    | inr off ↦ inl (off, ground (arith, off, e))
    | inl on ↦ elim (Option-cases (unpack msg.payload)) [
      | inl bad ↦ inr (on, ground (arith, on, bad, e), ground (arith, on, bad, e))
      | inr (st, good) ↦ inr (on, ground (arith, on, good, e), ground (arith, on, good, e))
    ]
  ]

  count_received-rest :
      (g : Stats) (len : ℕ)
      → ((count_received g len).db_rows ≡ g.db_rows)
        × ((count_received g len).commit_count ≡ g.commit_count)
  unfolding count_received
  count_received-rest g len = (refl, refl)

  -- The queue has the accepted samples more, and the counters count the received payloads.
  pub record Effect (g g' : Gateway F) (cells : List (ℕ × TelemetryState F))
      (received : List (List ℕ)) (accepted : List (TelemetryState F)) : Type 0 where
    pub more : List (ℕ × TelemetryState F)
    pub holds : Holds g'.queue (cells ++ more)
    pub added : samples more ≡ accepted
    pub counts :
        (before : List (List ℕ)) → Counts g.stats before → Counts g'.stats (before ++ received)
    pub rows_same : g'.stats.db_rows ≡ g.stats.db_rows
    pub commits_same : g'.stats.commit_count ≡ g.stats.commit_count

  Effect-off :
      (g g' : Gateway F) (cells : List (ℕ × TelemetryState F))
      → g ≡ g'
      → Holds g.queue cells
      → Effect g g' cells [] []
  Effect-off g g' cells same h =
      subst (λ x. Effect g x cells [] []) same
        (record {
          more = [];
          holds = rw append-nil h;
          added = refl;
          counts = λ before c. rw append-nil c;
          rows_same = refl;
          commits_same = refl;
        })

  Effect-on :
      (g g' : Gateway F) (cells more : List (ℕ × TelemetryState F)) (payload : List ℕ)
      (accepted : List (TelemetryState F))
      → g'.stats ≡ count_received g.stats (length payload)
      → Holds g'.queue (cells ++ more)
      → samples more ≡ accepted
      → Effect g g' cells (payload ∷ []) accepted
  Effect-on g g' cells more payload accepted e h s =
      let (r, c) = count_received-rest g.stats (length payload) in
      record {
        more = more;
        holds = h;
        added = s;
        counts = λ before b.
            subst (λ x. Counts x (before ++ (payload ∷ []))) (sym e)
              (count_received-Counts g.stats before payload b);
        rows_same = ap (λ (x : Stats). x.db_rows) e ∙ r;
        commits_same = ap (λ (x : Stats). x.commit_count) e ∙ c;
      }

  on_message-fresh :
      (n : ℕ) (now : ℤ) (alloc : Bool) (g g' : Gateway F) (msg : MqttMessage)
      (cells : List (ℕ × TelemetryState F))
      → n ≢ 0
      → g.queue.heap n ≡ none
      → Holds g.queue cells
      → on_message f unpack (some n) now alloc g msg ≡ some g'
      → (g.running && is_snapshot msg.topic) ≡ true
      → Effect g g' cells
          (msg.payload ∷ [])
          (decoded f unpack now alloc msg.payload (unpack msg.payload))
  on_message-fresh n now alloc g g' msg cells z free h e on =
      elim (on_message-cases f unpack n now alloc g msg cells z free h) [
        | inl (inl off, _) ↦ absurd (ground (arith, off, accepts-true g.running msg.topic on))
        | inl (inr off, _) ↦ absurd (off (accepts-true g.running msg.topic on).1)
        | inr (g₁, _, _, did, s, run, inl (bad, h₁)) ↦
            let same : g₁ ≡ g' = ground (arith, did, e) in
            rw bad (
              Effect-on g g' cells [] msg.payload [] (ground (arith, same, s))
                (rw append-nil (subst (λ (x : Gateway F). Holds x.queue cells) same h₁)) refl)
        | inr (g₁, _, _, did, s, run, inr (st, good, h₁)) ↦
            let same : g₁ ≡ g' = ground (arith, did, e) in
            let new = decode_sample f now alloc msg.payload st in
            rw good (
              Effect-on g g' cells ((n, new) ∷ []) msg.payload (new ∷ []) (ground (arith, same, s))
                (subst (λ (x : Gateway F). Holds x.queue (cells ++ ((n, new) ∷ []))) same h₁) refl)
      ]

  -- A message that meets no bad address adds what it should to the queue and the counters.
  pub on_message-Effect :
      (address : Option ℕ) (now : ℤ) (alloc : Bool) (g g' : Gateway F) (msg : MqttMessage)
      (cells : List (ℕ × TelemetryState F))
      → IsFresh g.queue.heap address
      → Holds g.queue cells
      → on_message f unpack address now alloc g msg ≡ some g'
      → Effect g g' cells
          (received_of f unpack g msg)
          (accepted_of f unpack address now alloc g msg)
  on_message-Effect none now alloc g g' msg cells fresh h e =
      elim (on_message-lost now alloc g g' msg e) [
        | inl (off, same) ↦ rw off (Effect-off g g' cells same h)
        | inr (on, s, q) ↦ rw on (
            Effect-on g g' cells [] msg.payload [] s
              (rw append-nil (subst (λ x. Holds x cells) (sym q) h)) refl)
      ]
  on_message-Effect (some n) now alloc g g' msg cells (z, free) h e =
      elim (Bool-cases (g.running && is_snapshot msg.topic)) [
        | inr off ↦
            let same = on_message-off f unpack (some n) now alloc g msg off in
            rw off (Effect-off g g' cells (ground (arith, same, e)) h)
        | inl on ↦ rw on (on_message-fresh n now alloc g g' msg cells z free h e on)
      ]
