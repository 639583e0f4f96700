-- ===== src/Gateway/Statistics/Intervals.antt =====
-- What the lines of `stats_thread` of src/app/telemetry_gateway.c say of the messages and batches
-- between two wake-ups.
use telemetry_testbed.Base.{
  ℕ, ◌+◌, ◌%◌, ◌^◌, ◌≡◌, refl, ap, sym, ◌∙◌, List, [], ◌∷◌, ◌++◌, append_assoc, append-nil, Option,
  true, arith, length, length-append,
}
use telemetry_testbed.Base.Int.{ℤ}
use telemetry_testbed.Types.{StateMessage, Float}
use telemetry_testbed.Db.Sqlite.{Sqlite, Transactions}
use telemetry_testbed.Sim.Sensors.{Double}
use telemetry_testbed.Gateway.Writer.{Stats}
use telemetry_testbed.Gateway.Pipeline.Trace.{
  Turn, offered, commits, Trace, Step, arrive, work, stop, Reach, next,
}
use telemetry_testbed.Gateway.Pipeline.Turns.{offered-append, commits-append}
use telemetry_testbed.Gateway.Pipeline.Arrival.{bytes, bytes-append}
use telemetry_testbed.Gateway.Pipeline.Ledger.{Reach-Ledger}
use telemetry_testbed.Gateway.Statistics.{
  Deltas, Line, Wakeup, minus_u64, deltas, remember, seconds, line, stats_loop,
}

-- The line of a wake-up at which the thread still runs.
prints :
    (d : Double) (start_mono_ns : ℕ) (batch_size : ℤ) (s : Stats) (before_ns : ℕ) (w : Wakeup)
    → w.running_before ≡ true
    → w.running_after ≡ true
    → let last = remember s before_ns in
      let l = line d start_mono_ns batch_size last w in
      (stats_loop d start_mono_ns batch_size last (w ∷ []) ≡ l ∷ [])
      × (l.rx_rate ≡ d.◌⊘◌ (d.of_ℕ (deltas w.stats last).rx_msgs) (seconds d before_ns w.now_ns))
      × (l.db_rate ≡ d.◌⊘◌ (d.of_ℕ (deltas w.stats last).db_rows) (seconds d before_ns w.now_ns))
unfolding stats_loop line remember
prints d start_mono_ns batch_size s before_ns w h₀ h₁ = (ground (arith, h₀, h₁), refl, refl)

-- No rate is divided by 0 or less, provided that 1 is not: the seconds are positive, by the second
-- test where the first does not make them so.
seconds_positive :
    (d : Double) (last_ns now_ns : ℕ)
    → d.less (d.num 0 0) (d.num 1 0) ≡ true
    → d.less (d.num 0 0) (seconds d last_ns now_ns) ≡ true
unfolding seconds
seconds_positive d last_ns now_ns h = ground (arith, h)

-- The difference of two counters is the true one, modulo 2 ^ 64.
minus_u64-true : (a b n k : ℕ) → a ≡ (n + k) % 2 ^ 64 → b ≡ n % 2 ^ 64 → minus_u64 a b ≡ k % 2 ^ 64
minus_u64-true a b n k ea eb = omega (arith, ea, eb)

module _ (f : Float) (db : Sqlite f.F) (unpack : List ℕ → Option (StateMessage f.F)) (max : ℕ) where
  open f use {F}

  -- What comes after a state, by more messages, actions of the writer or the stop.
  pub data Onward (t : Trace f db) : Trace f db → Type 0 where
    here : Onward t t
    on : {u v : Trace f db} → Onward t u → Step f db unpack max u v → Onward t v

  -- What was received and handled on the way.
  record Grows (t u : Trace f db) : Type 0 where
    received_more : List (List ℕ)
    turns_more : List (Turn F)
    received_grown : u.received ≡ t.received ++ received_more
    turns_grown : u.turns ≡ t.turns ++ turns_more

  Grows-by :
      (t u v : Trace f db) (r : List (List ℕ)) (ts : List (Turn F))
      → Grows t u
      → v.received ≡ u.received ++ r
      → v.turns ≡ u.turns ++ ts
      → Grows t v
  Grows-by t u v r ts g er et = record {
    received_more = g.received_more ++ r;
    turns_more = g.turns_more ++ ts;
    received_grown =
        er ∙ ap (λ l. l ++ r) g.received_grown ∙ append_assoc t.received g.received_more r;
    turns_grown = et ∙ ap (λ l. l ++ ts) g.turns_grown ∙ append_assoc t.turns g.turns_more ts;
  }

  Onward-Grows : {t u : Trace f db} → Onward t u → Grows t u
  Onward-Grows {t} here = record {
    received_more = [];
    turns_more = [];
    received_grown = sym (append-nil t.received);
    turns_grown = sym (append-nil t.turns);
  }
  Onward-Grows {t} {u = v} (on {u} o (arrive address now alloc msg g fresh e)) =
      Grows-by t u v _ [] (Onward-Grows o) refl (sym (append-nil u.turns))
  Onward-Grows {t} {u = v} (on {u} o (work alloc t0 t1 w e)) =
      Grows-by t u v [] _ (Onward-Grows o) (sym (append-nil u.received)) refl
  Onward-Grows {t} {u = v} (on {u} o stop) =
      Grows-by t u v [] [] (Onward-Grows o) (sym (append-nil u.received)) (sym (append-nil u.turns))

  Reach-Onward :
      {c : db.Conn} {t u : Trace f db}
      → Reach f db unpack max c t
      → Onward t u
      → Reach f db unpack max c u
  Reach-Onward r here = r
  Reach-Onward r (on o st) = next (Reach-Onward r o) st

  -- The counters have grown by what came on the way, modulo 2 ^ 64.
  record Counted (x : Deltas) (more : List (List ℕ)) (turns : List (Turn F)) : Type 0 where
    messages : x.rx_msgs ≡ length more % 2 ^ 64
    payload_bytes : x.rx_bytes ≡ bytes more % 2 ^ 64
    samples : x.db_rows ≡ length (offered turns) % 2 ^ 64
    batches : x.commit ≡ commits turns % 2 ^ 64

  module _ (tx : Transactions db) (c : db.Conn) where
    deltas-Counted :
        (t u : Trace f db) (now_ns : ℕ) (more : List (List ℕ)) (turns : List (Turn F))
        → Reach f db unpack max c t
        → Reach f db unpack max c u
        → u.received ≡ t.received ++ more
        → u.turns ≡ t.turns ++ turns
        → Counted (deltas u.world.gateway.stats (remember t.world.gateway.stats now_ns)) more turns
    unfolding deltas remember
    deltas-Counted t u now_ns more turns rt ru er et =
        let lt = Reach-Ledger f db tx unpack max c rt in
        let lu = Reach-Ledger f db tx unpack max c ru in
        let old = t.world.gateway.stats in
        let new = u.world.gateway.stats in
        record {
          messages =
              minus_u64-true new.rx_msgs old.rx_msgs (length t.received) (length more)
                (omega (arith, lu.counts.0, ap length er, length-append t.received more))
                lt.counts.0;
          payload_bytes =
              minus_u64-true new.rx_bytes old.rx_bytes (bytes t.received) (bytes more)
                (omega (arith, lu.counts.1, ap bytes er, bytes-append t.received more)) lt.counts.1;
          samples =
              minus_u64-true new.db_rows old.db_rows (length (offered t.turns))
                (length (offered turns))
                (omega (
                  arith,
                  lu.rows_counted,
                  ap (λ ts. length (offered ts)) et,
                  ap length (offered-append t.turns turns),
                  length-append (offered t.turns) (offered turns),
                ))
                lt.rows_counted;
          batches =
              minus_u64-true new.commit_count old.commit_count (commits t.turns) (commits turns)
                (omega (arith, lu.commits_counted, ap commits et, commits-append t.turns turns))
                lt.commits_counted;
        }

    -- Let SQLite keep its transactions, and let the statistics thread have woken at one state of the
    -- pipeline and, running, again at a later one. Then it prints one line. Its rates are, divided by
    -- the seconds between the two, the number of messages that came in between, and of the samples
    -- of the batches handled in between that found no transaction open, modulo 2 ^ 64, although the
    -- counters wrap around.
    pub stats_loop-counts :
        (d : Double) (start_mono_ns before_ns : ℕ) (batch_size : ℤ) (w : Wakeup) {t u : Trace f db}
        → Reach f db unpack max c t
        → Onward t u
        → w.running_before ≡ true
        → w.running_after ≡ true
        → w.stats ≡ u.world.gateway.stats
        → (more : List (List ℕ)) × (turns : List (Turn F)) × (l : Line d.D) × (u.received
            ≡ t.received ++ more)
          × (u.turns ≡ t.turns ++ turns)
          × (stats_loop d start_mono_ns batch_size
                (remember t.world.gateway.stats before_ns)
                (w ∷ [])
              ≡ l ∷ [])
          × (l.rx_rate ≡ d.◌⊘◌ (d.of_ℕ (length more % 2 ^ 64)) (seconds d before_ns w.now_ns))
          × (l.db_rate
              ≡ d.◌⊘◌ (d.of_ℕ (length (offered turns) % 2 ^ 64)) (seconds d before_ns w.now_ns))
    stats_loop-counts d start_mono_ns before_ns batch_size w {t} {u} r o h₀ h₁ hs =
        let g = Onward-Grows o in
        let last = remember t.world.gateway.stats before_ns in
        let x =
          deltas-Counted t u before_ns g.received_more g.turns_more r (Reach-Onward r o)
            g.received_grown g.turns_grown in
        let (printed, rx, rows) =
          prints d start_mono_ns batch_size t.world.gateway.stats before_ns w h₀ h₁ in
        let per = λ (n : ℕ). d.◌⊘◌ (d.of_ℕ n) (seconds d before_ns w.now_ns) in
        (
          g.received_more,
          g.turns_more,
          line d start_mono_ns batch_size last w,
          g.received_grown,
          g.turns_grown,
          printed,
          rx ∙ ap (λ (s : Stats). per (deltas s last).rx_msgs) hs ∙ ap per x.messages,
          rows ∙ ap (λ (s : Stats). per (deltas s last).db_rows) hs ∙ ap per x.samples,
        )
