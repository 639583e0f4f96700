-- ===== src/Gateway/Pipeline/Drain.antt =====
-- The loop of `writer_thread` of src/app/telemetry_gateway.c, as its rounds.
pub mod Empty
use telemetry_testbed.Base.{
  ℕ, zero, suc, ◌+◌, ◌≤◌, ◌≡◌, refl, ap, sym, ◌∙◌, inl, inr, List, [], ◌∷◌, ◌++◌, append-nil,
  Option, none, some, Bool, true, false, arith, length, length-append, take, drop,
}
use telemetry_testbed.Types.{TelemetryState, StateMessage, Float}
use telemetry_testbed.Db.Sqlite.{Sqlite, Transactions}
use telemetry_testbed.Gateway.Queue.{Queue, waits, takes, queue_pop_batch}
use telemetry_testbed.Gateway.Queue.Refinement.{Holds, samples, queue_pop_batch-Holds}
use telemetry_testbed.Gateway.Queue.Fifo.{length-samples}
use telemetry_testbed.Gateway.Pipeline.{
  testing, popping, writing, World, writer_step, wrote, after_pop, maxn,
}
use telemetry_testbed.Gateway.Pipeline.Trace.{Trace, batches, turn_at, work, Reach, next}
use telemetry_testbed.Gateway.Pipeline.Ledger.{in_hand, Reach-Ledger}
use telemetry_testbed.Base.Int.{ℤ, pos, negsuc}

pub maxn_positive : (batch_size : ℤ) (got : Bool) → 1 ≤ maxn batch_size got
unfolding maxn
maxn_positive n false = omega arith
maxn_positive (pos zero) true = omega arith
maxn_positive (pos (suc n)) true = omega arith
maxn_positive (negsuc n) true = omega arith

module _ (f : Float) (db : Sqlite f.F) (max : ℕ) where
  open f use {F}
  open db use {Conn}

  abbrev pub and_then :
      Option (World f db) → (World f db → Option (World f db)) → Option (World f db)
  and_then none next_action = none
  and_then (some w) next_action = next_action w

  -- One run of the loop's body, or as much of it as the writer can do before it waits.
  unfoldable pub writer_round : (ℕ → Bool) → ℕ → ℕ → World f db → Option (World f db)
  writer_round alloc t0 t1 w =
      let act = writer_step f db max alloc t0 t1 in and_then (and_then (act w) act) act

  -- Rounds of the loop, each with `malloc` and the clock's readings while it runs.
  unfoldable pub writer_loop : List ((ℕ → Bool) × ℕ × ℕ) → World f db → Option (World f db)
  unfolding writer_round
  writer_loop [] w = some w
  writer_loop ((alloc, t0, t1) ∷ rounds) w =
      and_then (writer_round alloc t0 t1 w) (writer_loop rounds)

  pub tests :
      (alloc : ℕ → Bool) (t0 t1 : ℕ) (w : World f db)
      → w.phase ≡ testing
      → w.gateway.running ≡ true
      → writer_step f db max alloc t0 t1 w ≡ some (record w { phase = popping })
  unfolding writer_step
  tests alloc t0 t1 w at run = ground (arith, at, run)

  pub pops :
      (alloc : ℕ → Bool) (t0 t1 : ℕ) (w : World f db) (batch : List (TelemetryState F))
      (q : Queue (TelemetryState F))
      → w.phase ≡ popping
      → queue_pop_batch w.gateway.running w.gateway.queue max ≡ takes (some (batch, q))
      → writer_step f db max alloc t0 t1 w
        ≡ some
            (record w { gateway = record (w.gateway) { queue = q }; phase = after_pop f db batch })
  unfolding writer_step
  pops alloc t0 t1 w batch q at e = ground (arith, at, e)

  pub waits_on :
      (alloc : ℕ → Bool) (t0 t1 : ℕ) (w : World f db)
      → w.phase ≡ popping
      → queue_pop_batch w.gateway.running w.gateway.queue max ≡ waits
      → writer_step f db max alloc t0 t1 w ≡ some w
  unfolding writer_step
  waits_on alloc t0 t1 w at e = ground (arith, at, e)

  pub writes :
      (alloc : ℕ → Bool) (t0 t1 : ℕ) (w : World f db) (batch : List (TelemetryState F))
      → w.phase ≡ writing batch
      → writer_step f db max alloc t0 t1 w ≡ some (wrote f db alloc w batch t0 t1)
  unfolding writer_step
  writes alloc t0 t1 w batch at = ground (arith, at)

  pub stays :
      (rounds : List ((ℕ → Bool) × ℕ × ℕ)) (w : World f db)
      → w.phase ≡ popping
      → queue_pop_batch w.gateway.running w.gateway.queue max ≡ waits
      → writer_loop rounds w ≡ some w
  unfolding writer_loop
  stays [] w at e = refl
  stays ((alloc, t0, t1) ∷ rounds) w at e =
      ground (arith, waits_on alloc t0 t1 w at e, stays rounds w at e)
