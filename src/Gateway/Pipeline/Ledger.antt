-- ===== src/Gateway/Pipeline/Ledger.antt =====
-- What the pieces of src/app/telemetry_gateway.c do together to the samples.
use telemetry_testbed.Base.{
  ℕ, ◌%◌, ◌^◌, ◌≡◌, refl, ap, sym, subst, ◌∙◌, inl, inr, List, [], ◌∷◌, ◌++◌, append_assoc,
  append-nil, map, map-append, if◌then◌else◌, Bool-cases, Option, some, Bool, arith, length, take,
  drop,
}
use telemetry_testbed.Types.{TelemetryState, StateMessage, Float}
use telemetry_testbed.Db.Row.{bind_state}
use telemetry_testbed.Db.Sqlite.{Sqlite, Transactions}
use telemetry_testbed.Gateway.Writer.{write_batch}
use telemetry_testbed.Gateway.Queue.Refinement.{Holds, samples, empty-Holds, queue_pop_batch-Holds}
use telemetry_testbed.Gateway.Queue.Fifo.{samples-append, split-samples}
use telemetry_testbed.Gateway.Pipeline.{
  Phase, testing, popping, finished, writing, World, writer_step, wrote, after_pop,
}
use telemetry_testbed.Gateway.Pipeline.Outcome.{fate, kept_of, write_batch-counts, write_batch-rows}
use telemetry_testbed.Gateway.Pipeline.Trace.{
  Turn, batches, kept, offered, commits, heard, Trace, turn_at, initial, Step, arrive, work, stop,
  Reach, start, next,
}
use telemetry_testbed.Gateway.Pipeline.Turns.{
  batches-snoc, kept-snoc, length-offered-snoc, commits-snoc, heard-append,
}
use telemetry_testbed.Gateway.Pipeline.Arrival.{Counts, on_message-Effect}

-- The samples that the writer has taken out and not handled yet.
abbrev pub in_hand : {A : Type 0} → Phase A → List A
in_hand testing = []
in_hand popping = []
in_hand finished = []
in_hand (writing batch) = batch

in_hand-after_pop :
    (f : Float) (db : Sqlite f.F) (batch : List (TelemetryState f.F))
    → in_hand (after_pop f db batch) ≡ batch
in_hand-after_pop f db [] = refl
in_hand-after_pop f db (s ∷ batch) = refl

module _ (f : Float) (db : Sqlite f.F) (tx : Transactions db) where
  open f use {F}
  open db use {Conn}
  open tx use {rows}

  -- The samples accepted so far are those of the batches handled, those that the writer has in hand,
  -- and those that wait, in order. The table has the rows of the batches that were kept, behind the
  -- rows of the start; what was broadcast are the batches that found no transaction open; and the
  -- counters are those of the messages, the samples and the batches, modulo 2 ^ 64.
  pub record Ledger (c : Conn) (t : Trace f db) : Type 0 where
    pub cells : List (ℕ × TelemetryState F)
    pub holds : Holds t.world.gateway.queue cells
    pub order : t.accepted ≡ batches t.turns ++ (in_hand t.world.phase ++ samples cells)
    pub stored : rows t.world.conn ≡ rows c ++ map (bind_state f) (kept t.turns)
    pub told : t.world.sent ≡ heard f db t.turns
    pub counts : Counts t.world.gateway.stats t.received
    pub rows_counted : t.world.gateway.stats.db_rows ≡ length (offered t.turns) % 2 ^ 64
    pub commits_counted : t.world.gateway.stats.commit_count ≡ commits t.turns % 2 ^ 64

  initial-Ledger : (c : Conn) → Ledger c (initial f db c)
  initial-Ledger c = record {
    cells = [];
    holds = empty-Holds;
    order = refl;
    stored = sym (append-nil (rows c));
    told = refl;
    counts = (omega arith, omega arith);
    rows_counted = omega arith;
    commits_counted = omega arith;
  }

  module _ (unpack : List ℕ → Option (StateMessage F)) (max : ℕ) (c : Conn) where
    arrived :
        (t : Trace f db) (cells more : List (ℕ × TelemetryState F)) (new : List (TelemetryState F))
        → t.accepted ≡ batches t.turns ++ (in_hand t.world.phase ++ samples cells)
        → samples more ≡ new
        → t.accepted ++ new ≡ batches t.turns ++ (in_hand t.world.phase ++ samples (cells ++ more))
    arrived t cells more new order added =
        let done = batches t.turns in
        let hand = in_hand t.world.phase in
        ap (λ l. l ++ new) order
        ∙ append_assoc done (hand ++ samples cells) new
        ∙ ap (λ l. done ++ l) (append_assoc hand (samples cells) new)
        ∙ ap (λ l. done ++ (hand ++ (samples cells ++ l))) (sym added)
        ∙ ap (λ l. done ++ (hand ++ l)) (sym (samples-append cells more))

    -- An action of the writer that handles no batch.
    Ledger-still :
        (t : Trace f db) (w : World f db) (cells : List (ℕ × TelemetryState F))
        → w.gateway.stats ≡ t.world.gateway.stats
        → w.conn ≡ t.world.conn
        → w.sent ≡ t.world.sent
        → Holds w.gateway.queue cells
        → (l : Ledger c t)
        → in_hand w.phase ++ samples cells ≡ in_hand t.world.phase ++ samples l.cells
        → Ledger c (record t { world = w; turns = t.turns ++ [] })
    Ledger-still t w cells es ec et h l same = rw append-nil (record {
      cells = cells;
      holds = h;
      order = l.order ∙ ap (λ x. batches t.turns ++ x) (sym same);
      stored = ap rows ec ∙ l.stored;
      told = et ∙ l.told;
      counts = subst (λ g. Counts g t.received) (sym es) l.counts;
      rows_counted = rw (es, l.rows_counted) refl;
      commits_counted = rw (es, l.commits_counted) refl;
    })

    wrote-Ledger :
        (t : Trace f db) (alloc : ℕ → Bool) (batch : List (TelemetryState F)) (t0 t1 : ℕ)
        → t.world.phase ≡ writing batch
        → Ledger c t
        → Ledger c (record t {
          world = wrote f db alloc t.world batch t0 t1;
          turns = t.turns ++ turn_at f db alloc t.world.conn (writing batch);
        })
    wrote-Ledger t alloc batch t0 t1 at l =
        let turn : Turn F = record {
          batch = batch;
          alloc = alloc;
          fate = fate f db t.world.conn batch;
        } in
        let (sent, r, m, rx, by) =
          write_batch-counts f db tx alloc t.world.conn t.world.gateway.stats batch t0 t1
            (length (offered t.turns)) (commits t.turns) l.rows_counted l.commits_counted in
        let r_sent = (write_batch f db alloc t.world.conn t.world.gateway.stats batch t0 t1).sent in
        record {
          cells = l.cells;
          holds = l.holds;
          order =
              l.order
              ∙ ap (λ p. batches t.turns ++ (in_hand p ++ samples l.cells)) at
              ∙ sym (append_assoc (batches t.turns) batch (samples l.cells))
              ∙ ap (λ x. x ++ samples l.cells) (sym (batches-snoc t.turns turn));
          stored =
              write_batch-rows f db tx alloc t.world.conn t.world.gateway.stats batch t0 t1
              ∙ ap (λ x. x ++ map (bind_state f) (kept_of turn.fate batch)) l.stored
              ∙ append_assoc (rows c) (map (bind_state f) (kept t.turns)) _
              ∙ ap (λ x. rows c ++ x)
                  (sym (map-append (bind_state f) (kept t.turns) (kept_of turn.fate batch)))
              ∙ ap (λ x. rows c ++ map (bind_state f) x) (sym (kept-snoc t.turns turn));
          told =
              ap (λ x. x ++ r_sent) l.told
              ∙ ap (λ x. heard f db t.turns ++ x) (sent ∙ sym (append-nil _))
              ∙ sym (heard-append f db t.turns (turn ∷ []));
          counts = (rx ∙ l.counts.0, by ∙ l.counts.1);
          rows_counted = r ∙ ap (λ n. n % 2 ^ 64) (sym (length-offered-snoc t.turns turn));
          commits_counted = m ∙ ap (λ n. n % 2 ^ 64) (sym (commits-snoc t.turns turn));
        }

    -- The samples in hand around the test of the loop.
    hand :
        (t : Trace f db)
        → t.world.phase ≡ testing
        → (l : Ledger c t)
        → in_hand (if t.world.gateway.running then popping else finished) ++ samples l.cells
          ≡ in_hand t.world.phase ++ samples l.cells
    hand t at l = elim (Bool-cases t.world.gateway.running) [
      | inl on ↦ ground (arith, at, on)
      | inr off ↦ ground (arith, at, off)
    ]

    work-Ledger :
        (t : Trace f db) (alloc : ℕ → Bool) (t0 t1 : ℕ) (w : World f db)
        (p : Phase (TelemetryState F))
        → t.world.phase ≡ p
        → writer_step f db max alloc t0 t1 t.world ≡ some w
        → Ledger c t
        → Ledger c (record t { world = w; turns = t.turns ++ turn_at f db alloc t.world.conn p })
    unfolding writer_step
    work-Ledger t alloc t0 t1 w testing at e l =
        let after = if t.world.gateway.running then popping else finished in
        let same : record (t.world) { phase = after } ≡ w = ground (arith, at, e) in
        subst (λ (x : World f db). Ledger c (record t { world = x; turns = t.turns ++ [] })) same
          (Ledger-still t (record (t.world) { phase = after }) l.cells refl refl refl l.holds l
            (hand t at l))
    work-Ledger t alloc t0 t1 w popping at e l =
        elim (queue_pop_batch-Holds t.world.gateway.running t.world.gateway.queue max l.cells
          l.holds) [
            | inl (run, none_left, waiting) ↦
                let same : t.world ≡ w = ground (arith, at, waiting, e) in
                subst (λ (x : World f db). Ledger c (record t { world = x; turns = t.turns ++ [] }))
                  same (Ledger-still t t.world l.cells refl refl refl l.holds l refl)
            | inr (q, taken, h) ↦
                let batch = samples (take max l.cells) in
                let popped : World f db = record (t.world) {
                  gateway = record (t.world.gateway) { queue = q };
                  phase = after_pop f db batch;
                } in
                let same : popped ≡ w = ground (arith, at, taken, e) in
                subst (λ (x : World f db). Ledger c (record t { world = x; turns = t.turns ++ [] }))
                  same
                  (Ledger-still t popped (drop max l.cells) refl refl refl h l (
                    ap (λ x. x ++ samples (drop max l.cells)) (in_hand-after_pop f db batch)
                    ∙ split-samples max l.cells
                    ∙ ap (λ p. in_hand p ++ samples l.cells) (sym at)))
          ]
    work-Ledger t alloc t0 t1 w finished at e l =
        let same : t.world ≡ w = ground (arith, at, e) in
        subst (λ (x : World f db). Ledger c (record t { world = x; turns = t.turns ++ [] })) same
          (Ledger-still t t.world l.cells refl refl refl l.holds l refl)
    work-Ledger t alloc t0 t1 w (writing batch) at e l =
        let same : wrote f db alloc t.world batch t0 t1 ≡ w = ground (arith, at, e) in
        subst
          (λ (x : World f db). Ledger c (record t {
            world = x;
            turns = t.turns ++ turn_at f db alloc t.world.conn (writing batch);
          }))
          same (wrote-Ledger t alloc batch t0 t1 at l)

    Step-Ledger : {t u : Trace f db} → Step f db unpack max t u → Ledger c t → Ledger c u
    Step-Ledger {t} stop l = record {
      cells = l.cells;
      holds = l.holds;
      order = l.order;
      stored = l.stored;
      told = l.told;
      counts = l.counts;
      rows_counted = l.rows_counted;
      commits_counted = l.commits_counted;
    }
    Step-Ledger {t} (arrive address now alloc msg g fresh e) l =
        let x =
          on_message-Effect f unpack address now alloc t.world.gateway g msg l.cells fresh l.holds
            e in
        record {
          cells = l.cells ++ x.more;
          holds = x.holds;
          order = arrived t l.cells x.more _ l.order x.added;
          stored = l.stored;
          told = l.told;
          counts = x.counts t.received l.counts;
          rows_counted = x.rows_same ∙ l.rows_counted;
          commits_counted = x.commits_same ∙ l.commits_counted;
        }
    Step-Ledger {t} (work alloc t0 t1 w e) l = work-Ledger t alloc t0 t1 w t.world.phase refl e l

    -- Let SQLite keep its transactions. After any interleaving of messages, actions of the writer and
    -- the stop of the gateway, the samples accepted are, in order and each once, those of the batches
    -- that the writer handled, those that it has in hand, and those that wait in the queue. The table
    -- has, behind its first rows, those of the batches whose transaction was committed, and no part
    -- of another; the clients were sent the samples of the batches that found no transaction open;
    -- and the four counters are those of the messages and batches, modulo 2 ^ 64.
    pub Reach-Ledger : {t : Trace f db} → Reach f db unpack max c t → Ledger c t
    Reach-Ledger start = initial-Ledger c
    Reach-Ledger (next r st) = Step-Ledger st (Reach-Ledger r)
