-- ===== src/Gateway/Pipeline/Drain/Empty.antt =====
-- The loop of `writer_thread` of src/app/telemetry_gateway.c, left to itself, empties the queue.
use telemetry_testbed.Base.{
  ℕ, zero, suc, ◌+◌, ◌≤◌, ◌≡◌, refl, ap, sym, ◌∙◌, inl, inr, List, [], ◌∷◌, ◌++◌, append-nil,
  Option, some, Bool, true, arith, length, length-append, take, drop,
}
use telemetry_testbed.Types.{TelemetryState, StateMessage, Float}
use telemetry_testbed.Db.Sqlite.{Sqlite, Transactions}
use telemetry_testbed.Gateway.Queue.{Queue, waits, takes, queue_pop_batch}
use telemetry_testbed.Gateway.Queue.Refinement.{Holds, samples, queue_pop_batch-Holds}
use telemetry_testbed.Gateway.Queue.Fifo.{length-samples}
use telemetry_testbed.Gateway.Pipeline.{testing, popping, writing, World, wrote, after_pop}
use telemetry_testbed.Gateway.Pipeline.Trace.{Trace, batches, turn_at, work, Reach, next}
use telemetry_testbed.Gateway.Pipeline.Ledger.{in_hand, Reach-Ledger}
use telemetry_testbed.Gateway.Pipeline.Drain.{
  writer_round, writer_loop, tests, pops, waits_on, writes, stays,
}

drop_shorter : {A : Type 0} (n : ℕ) (xs : List A) → length (drop n xs) ≤ length xs
drop_shorter zero xs = omega arith
drop_shorter (suc n) [] = omega arith
drop_shorter (suc n) (x ∷ xs) = omega (arith, drop_shorter n xs)

length-drop :
    {A : Type 0} (max k : ℕ) (x : A) (xs : List A)
    → 1 ≤ max
    → length (x ∷ xs) ≤ suc k
    → length (drop max (x ∷ xs)) ≤ k
length-drop zero k x xs m h = absurd (omega arith)
length-drop (suc max) k x xs m h = omega (arith, drop_shorter max xs)

-- What is popped from a queue that is not empty.
some_popped :
    (f : Float) (db : Sqlite f.F) (max a : ℕ) (s : TelemetryState f.F)
    (cells : List (ℕ × TelemetryState f.F))
    → 1 ≤ max
    → let batch = samples (take max ((a, s) ∷ cells)) in after_pop f db batch ≡ writing batch
some_popped f db zero a s cells m = absurd (omega arith)
some_popped f db (suc max) a s cells m = refl

none_popped :
    {A : Type 0} (running : Bool) (q : Queue A) (max : ℕ)
    → running ≡ true
    → Holds q []
    → queue_pop_batch running q max ≡ waits
unfolding queue_pop_batch
none_popped running q max run h = ground (arith, run, h.head)

pub nothing_waits :
    {A : Type 0} {q : Queue A} (cells : List (ℕ × A))
    → Holds q cells
    → q.q_head ≡ 0
    → samples cells ≡ []
nothing_waits [] h e = refl
nothing_waits ((a, s) ∷ cells) h e = absurd (h.chain.0 (sym h.head ∙ e))

module _ (f : Float) (db : Sqlite f.F) (max : ℕ) where
  open f use {F}
  open db use {Conn}

  abbrev after : Trace f db → (ℕ → Bool) → World f db → Trace f db
  after t alloc w = record t {
    world = w;
    turns = t.turns ++ turn_at f db alloc t.world.conn t.world.phase;
  }

  module _ (unpack : List ℕ → Option (StateMessage F)) (c : Conn) where
    -- The writer's rounds lead to a state with nothing waiting and nothing in hand.
    record Drained (t u : Trace f db) (rounds : List ((ℕ → Bool) × ℕ × ℕ)) : Type 0 where
      reached : Reach f db unpack max c u
      accepted_same : u.accepted ≡ t.accepted
      runs : writer_loop f db max rounds t.world ≡ some u.world
      vacant : Holds u.world.gateway.queue []
      free_hands : in_hand u.world.phase ≡ []

    Drained-empty :
        (t : Trace f db) (rounds : List ((ℕ → Bool) × ℕ × ℕ))
        → Reach f db unpack max c t
        → t.world.phase ≡ testing
        → t.world.gateway.running ≡ true
        → Holds t.world.gateway.queue []
        → (u : Trace f db) × Drained t u rounds
    unfolding writer_loop
    Drained-empty t [] r at run h = (
      t,
      record {
        reached = r;
        accepted_same = refl;
        runs = refl;
        vacant = h;
        free_hands = ap in_hand at;
      },
    )
    Drained-empty t ((alloc, t0, t1) ∷ rounds) r at run h =
        let w : World f db = record (t.world) { phase = popping } in
        let tested = tests f db max alloc t0 t1 t.world at run in
        let none_left = none_popped t.world.gateway.running t.world.gateway.queue max run h in
        let still = waits_on f db max alloc t0 t1 w refl none_left in
        (
          after t alloc w,
          record {
            reached = next r (work alloc t0 t1 w tested);
            accepted_same = refl;
            runs = ground (arith, tested, still, stays f db max rounds w refl none_left);
            vacant = h;
            free_hands = refl;
          },
        )

    -- The traces of a round that handles a batch.
    abbrev tested_of : Trace f db → (ℕ → Bool) → Trace f db
    tested_of t alloc = after t alloc (record (t.world) { phase = popping })

    abbrev popped_of :
        Trace f db → (ℕ → Bool) → Queue (TelemetryState F) → List (TelemetryState F) → Trace f db
    popped_of t alloc q batch =
        let t₁ = tested_of t alloc in
        after t₁ alloc (record (t₁.world) {
          gateway = record (t₁.world.gateway) { queue = q };
          phase = after_pop f db batch;
        })

    abbrev round_of :
        Trace f db
        → (ℕ → Bool)
        → ℕ
        → ℕ
        → Queue (TelemetryState F)
        → List (TelemetryState F)
        → Trace f db
    round_of t alloc t0 t1 q batch =
        let t₂ = popped_of t alloc q batch in after t₂ alloc (wrote f db alloc t₂.world batch t0 t1)

    one_round :
        (t : Trace f db) (alloc : ℕ → Bool) (t0 t1 a : ℕ) (s : TelemetryState F)
        (cells : List (ℕ × TelemetryState F)) (q : Queue (TelemetryState F))
        → 1 ≤ max
        → Reach f db unpack max c t
        → t.world.phase ≡ testing
        → t.world.gateway.running ≡ true
        → let batch = samples (take max ((a, s) ∷ cells)) in
          queue_pop_batch t.world.gateway.running t.world.gateway.queue max
            ≡ takes (some (batch, q))
          → Reach f db unpack max c (round_of t alloc t0 t1 q batch)
            × (writer_round f db max alloc t0 t1 t.world
                ≡ some (round_of t alloc t0 t1 q batch).world)
    unfolding writer_round
    one_round t alloc t0 t1 a s cells q m r at run taken =
        let batch = samples (take max ((a, s) ∷ cells)) in
        let t₁ = tested_of t alloc in
        let t₂ = popped_of t alloc q batch in
        let e₁ = tests f db max alloc t0 t1 t.world at run in
        let e₂ = pops f db max alloc t0 t1 t₁.world batch q refl taken in
        let e₃ = writes f db max alloc t0 t1 t₂.world batch (some_popped f db max a s cells m) in
        (
          next (next (next r (work alloc t0 t1 t₁.world e₁)) (work alloc t0 t1 t₂.world e₂))
              (work alloc t0 t1 (wrote f db alloc t₂.world batch t0 t1) e₃),
          ground (arith, e₁, e₂, e₃),
        )

    Drained-loop :
        (t : Trace f db) (rounds : List ((ℕ → Bool) × ℕ × ℕ)) (cells : List (ℕ × TelemetryState F))
        → 1 ≤ max
        → Reach f db unpack max c t
        → t.world.phase ≡ testing
        → t.world.gateway.running ≡ true
        → Holds t.world.gateway.queue cells
        → length cells ≤ length rounds
        → (u : Trace f db) × Drained t u rounds
    unfolding writer_loop
    Drained-loop t rounds [] m r at run h few = Drained-empty t rounds r at run h
    Drained-loop t [] ((a, s) ∷ cells) m r at run h few = absurd (omega arith)
    Drained-loop t ((alloc, t0, t1) ∷ rounds) ((a, s) ∷ cells) m r at run h few =
        elim (queue_pop_batch-Holds t.world.gateway.running t.world.gateway.queue max
          ((a, s) ∷ cells) h) [
            | inl (_, none_left, _) ↦ absurd (ground (arith, none_left))
            | inr (q, taken, h₁) ↦
                let t₃ = round_of t alloc t0 t1 q (samples (take max ((a, s) ∷ cells))) in
                let (r₃, once) = one_round t alloc t0 t1 a s cells q m r at run taken in
                let (u, d) =
                  Drained-loop t₃ rounds (drop max ((a, s) ∷ cells)) m r₃ refl run h₁
                    (length-drop max (length rounds) (a, s) cells m few) in
                (
                  u,
                  record {
                    reached = d.reached;
                    accepted_same = d.accepted_same;
                    runs = ground (arith, once, d.runs);
                    vacant = d.vacant;
                    free_hands = d.free_hands;
                  },
                )
          ]

    module _ (tx : Transactions db) where
      -- Let SQLite keep its transactions, and let the gateway run with its writer before the test of
      -- its loop. As many rounds of the loop as samples were accepted, with no message between them,
      -- meet no bad address, and afterwards every sample accepted has been in a batch that the
      -- writer handled, in order: none waits, and none is in the writer's hand.
      pub writer_loop-drains :
          {t : Trace f db} (rounds : List ((ℕ → Bool) × ℕ × ℕ))
          → 1 ≤ max
          → Reach f db unpack max c t
          → t.world.phase ≡ testing
          → t.world.gateway.running ≡ true
          → length t.accepted ≤ length rounds
          → (u : Trace f db) × Reach f db unpack max c u
            × (writer_loop f db max rounds t.world ≡ some u.world)
            × (u.accepted ≡ t.accepted)
            × (batches u.turns ≡ t.accepted)
            × (u.world.gateway.queue.q_head ≡ 0)
      writer_loop-drains {t} rounds m r at run enough =
          let l = Reach-Ledger f db tx unpack max c r in
          let total =
            ap length l.order
            ∙ length-append (batches t.turns) (in_hand t.world.phase ++ samples l.cells)
            ∙ ap (λ n. length (batches t.turns) + n)
                (length-append (in_hand t.world.phase) (samples l.cells)) in
          let few : length l.cells ≤ length rounds =
            omega (arith, total, length-samples l.cells, enough) in
          let (u, d) = Drained-loop t rounds l.cells m r at run l.holds few in
          let after_all = Reach-Ledger f db tx unpack max c d.reached in
          let none_left = nothing_waits after_all.cells after_all.holds d.vacant.head in
          let done : u.accepted ≡ batches u.turns =
            after_all.order
            ∙ ap (λ x. batches u.turns ++ (x ++ samples after_all.cells)) d.free_hands
            ∙ ap (λ x. batches u.turns ++ x) none_left
            ∙ append-nil (batches u.turns) in
          (u, d.reached, d.runs, d.accepted_same, sym done ∙ d.accepted_same, d.vacant.head)
