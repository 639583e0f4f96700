-- ===== src/Gateway/Pipeline/Stop.antt =====
-- What `telemetry_gateway_stop` of src/app/telemetry_gateway.c finds when the writer has ended.
use telemetry_testbed.Base.{
  ℕ, ◌≤◌, ◌≡◌, refl, ap, ◌∙◌, List, ◌++◌, Option, none, some, length, length-append, arith,
}
use telemetry_testbed.Types.{TelemetryState, StateMessage, Float}
use telemetry_testbed.Db.Sqlite.{Sqlite, Transactions}
use telemetry_testbed.Gateway.Queue.{Node}
use telemetry_testbed.Gateway.Queue.Refinement.{Holds, samples}
use telemetry_testbed.Gateway.Queue.Fifo.{length-samples}
use telemetry_testbed.Gateway.Queue.Release.{release, Gone, release-all}
use telemetry_testbed.Gateway.Pipeline.{finished}
use telemetry_testbed.Gateway.Pipeline.Trace.{Trace, batches, Reach}
use telemetry_testbed.Gateway.Pipeline.Ledger.{in_hand, Reach-Ledger}

module _ (f : Float) (db : Sqlite f.F) (tx : Transactions db) where
  open f use {F}

  -- Let SQLite keep its transactions, and let the writer be behind its loop. The queue then still
  -- holds some samples, each in a node. The last loop of `telemetry_gateway_stop`, with a round for
  -- each sample that was ever accepted, meets no bad address, hands out exactly these samples, and
  -- leaves no node of theirs allocated; an address without a node stays without. The samples accepted
  -- are those of the batches that the writer handled and then those that this loop frees, each once
  -- and in order: none is left behind and none is freed by both.
  pub stop_releases :
      (unpack : List ℕ → Option (StateMessage F)) (max : ℕ) (c : db.Conn) {t : Trace f db}
      (fuel : ℕ)
      → Reach f db unpack max c t
      → t.world.phase ≡ finished
      → length t.accepted ≤ fuel
      → (h' : ℕ → Option (Node (TelemetryState F))) × (freed : List (TelemetryState F))
        × (cells : List (ℕ × TelemetryState F)) × Holds t.world.gateway.queue cells
        × (freed ≡ samples cells)
        × (release fuel t.world.gateway.queue.heap t.world.gateway.queue.q_head ≡ some (h', freed))
        × Gone h' cells
        × ((a : ℕ) → t.world.gateway.queue.heap a ≡ none → h' a ≡ none)
        × (t.accepted ≡ batches t.turns ++ freed)
  stop_releases unpack max c {t} fuel r at enough =
      let l = Reach-Ledger f db tx unpack max c r in
      let order : t.accepted ≡ batches t.turns ++ samples l.cells =
        l.order ∙ ap (λ p. batches t.turns ++ (in_hand p ++ samples l.cells)) at in
      let total = ap length order ∙ length-append (batches t.turns) (samples l.cells) in
      let (h', out, gone, kept) =
        release-all t.world.gateway.queue l.cells fuel l.holds
          (omega (arith, total, length-samples l.cells, enough)) in
      (h', samples l.cells, l.cells, l.holds, refl, out, gone, kept, order)
