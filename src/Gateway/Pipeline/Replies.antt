-- ===== src/Gateway/Pipeline/Replies.antt =====
-- From the MQTT callback of src/app/telemetry_gateway.c to the history reply of
-- src/infra/persistence/db_sqlite.c.
use telemetry_testbed.Base.{
  ℕ, zero, suc, ◌≡◌, refl, ap, sym, subst, ◌∙◌, List, [], ◌∷◌, ◌++◌, append-nil, map, reverse,
  Option, none, some, Bool, true, codes, arith, take, All,
}
use mathlib.Core.List.{reverse_aux}
use telemetry_testbed.Base.Int.{ℤ, ltb_ℤ}
use telemetry_testbed.Types.{TelemetryState, StateMessage, Float}
use telemetry_testbed.Db.Row.{Value, bind_state, columns, named, select, state_row, column_int64}
use telemetry_testbed.Db.Sqlite.{Sqlite, Transactions}
use telemetry_testbed.Db.History.{reply, items_head, clamp_limit, db_reader_history_last_json}
use telemetry_testbed.Db.History.Contents.{Ample, joined, sample_json, history-joined}
use telemetry_testbed.Db.History.Replay.{IsStorable, replay-live}
use telemetry_testbed.Gateway.Live.{live_json}
use telemetry_testbed.Gateway.Queue.Refinement.{samples}
use telemetry_testbed.Gateway.Pipeline.Trace.{Trace, batches, Reach}
use telemetry_testbed.Gateway.Pipeline.Ledger.{in_hand, Reach-Ledger}
use telemetry_testbed.Gateway.Pipeline.Drain.Empty.{nothing_waits}
use telemetry_testbed.Gateway.Pipeline.Reliable.{Works, rows-batches}

-- Each row's `received_at_ns`, the first value bound, is greater than the one before.
abbrev pub Rising : {F : Type 0} → List (List (Value F)) → Type 0
Rising [] = Unit {0}
Rising (v ∷ []) = Unit {0}
Rising (v ∷ u ∷ vs) = (ltb_ℤ (column_int64 v 0) (column_int64 u 0) ≡ true) × Rising (u ∷ vs)

-- `ORDER BY received_at_ns DESC LIMIT ?` on rows that were inserted in the order of their
-- `received_at_ns`: the last of them, the newest first.
abbrev pub NewestFirst :
    {F : Type 0} → (ℕ → Option (List (List (Value F)))) → List (List (Value F)) → Type 0
NewestFirst query rows =
    (limit : ℕ)
    → Rising rows
    → query limit ≡ some (take limit (reverse (map (λ v. select (named columns v)) rows)))

take-take : {A : Type 0} (n : ℕ) (xs : List A) → take n (take n xs) ≡ take n xs
take-take zero xs = refl
take-take (suc n) [] = refl
take-take (suc n) (x ∷ xs) = ap (λ l. x ∷ l) (take-take n xs)

map-take : {A B : Type 0} (g : A → B) (n : ℕ) (xs : List A) → map g (take n xs) ≡ take n (map g xs)
map-take g zero xs = refl
map-take g (suc n) [] = refl
map-take g (suc n) (x ∷ xs) = ap (λ l. g x ∷ l) (map-take g n xs)

map-reverse_aux :
    {A B : Type 0} (g : A → B) (xs ys : List A)
    → map g (reverse_aux xs ys) ≡ reverse_aux (map g xs) (map g ys)
map-reverse_aux g [] ys = refl
map-reverse_aux g (x ∷ xs) ys = map-reverse_aux g xs (x ∷ ys)

module _ (f : Float) where
  open f use {F}

  -- Each sample was received later than the one before.
  abbrev pub Later : List (TelemetryState F) → Type 0
  Later [] = Unit {0}
  Later (s ∷ []) = Unit {0}
  Later (s ∷ u ∷ ss) = (ltb_ℤ s.received_at_ns u.received_at_ns ≡ true) × Later (u ∷ ss)

  Later-Rising : (ss : List (TelemetryState F)) → Later ss → Rising (map (bind_state f) ss)
  unfolding bind_state column_int64
  Later-Rising [] h = tt
  Later-Rising (s ∷ []) h = tt
  Later-Rising (s ∷ u ∷ ss) (lt, h) = (lt, Later-Rising (u ∷ ss) h)

  result_texts :
      (ss : List (TelemetryState F))
      → All (IsStorable f) ss
      → map (sample_json f) (map (λ v. select (named columns v)) (map (bind_state f) ss))
        ≡ map (live_json f) ss
  unfolding state_row
  result_texts [] h = refl
  result_texts (s ∷ ss) (hs, h) = ground (arith, replay-live f s hs, result_texts ss h)

  -- The texts of the rows that the query gives.
  query_texts :
      (n : ℕ) (ss : List (TelemetryState F))
      → All (IsStorable f) ss
      → let r = reverse (map (λ v. select (named columns v)) (map (bind_state f) ss)) in
        map (sample_json f) (take n (take n r)) ≡ take n (reverse (map (live_json f) ss))
  query_texts n ss h =
      let table = map (λ v. select (named columns v)) (map (bind_state f) ss) in
      ap (map (sample_json f)) (take-take n (reverse table))
      ∙ map-take (sample_json f) n (reverse table)
      ∙ ap (take n) (map-reverse_aux (sample_json f) table [])
      ∙ ap (λ l. take n (reverse l)) (result_texts ss h)

  -- What a client is sent for the history of some samples: their live texts, oldest first, at most
  -- as many as the limit, of the newest.
  abbrev pub history_of : List (TelemetryState F) → ℕ → List ℕ
  history_of ss n =
      items_head ++ (joined (reverse (take n (reverse (map (live_json f) ss)))) ++ codes "]}")

  module _ (db : Sqlite f.F) (tx : Transactions db) (works : Works db tx) where
    open tx use {rows, opened}

    -- Where nothing waits and nothing is in hand, every sample accepted has its row.
    all_in_table :
        (unpack : List ℕ → Option (StateMessage F)) (max : ℕ) (c : db.Conn) {t : Trace f db}
        → opened c ≡ none
        → rows c ≡ []
        → Reach f db unpack max c t
        → in_hand t.world.phase ≡ []
        → t.world.gateway.queue.q_head ≡ 0
        → rows t.world.conn ≡ map (bind_state f) t.accepted
    all_in_table unpack max c {t} o e r free vacant =
        let l = Reach-Ledger f db tx unpack max c r in
        let all : t.accepted ≡ batches t.turns =
          l.order
          ∙ ap (λ x. batches t.turns ++ (x ++ samples l.cells)) free
          ∙ ap (λ x. batches t.turns ++ x) (nothing_waits l.cells l.holds vacant)
          ∙ append-nil (batches t.turns) in
        rows-batches f db tx works unpack max c o r
        ∙ ap (λ x. x ++ map (bind_state f) (batches t.turns)) e
        ∙ ap (map (bind_state f)) (sym all)

    -- Let SQLite keep its transactions and refuse nothing, let the table have been empty and no
    -- transaction open, let the samples accepted have been received each later than the one before
    -- and be storable, that is with counters that fit their columns and no reading that is a NaN or
    -- -0.0, and let nothing wait and nothing be in the writer's hand. Where memory does
    -- not run out and the query is answered as `ORDER BY` and `LIMIT` say, a client's history reply
    -- holds the live texts of the last samples accepted, at most as many as the limit, each as it
    -- was broadcast, oldest first.
    pub history_reply-accepted :
        (unpack : List ℕ → Option (StateMessage F)) (max : ℕ) (c : db.Conn) {t : Trace f db}
        (alloc : ℕ → Bool) (query : ℕ → Option (List (List (Value F)))) (limit : ℤ)
        → opened c ≡ none
        → rows c ≡ []
        → Reach f db unpack max c t
        → in_hand t.world.phase ≡ []
        → t.world.gateway.queue.q_head ≡ 0
        → Later t.accepted
        → All (IsStorable f) t.accepted
        → Ample alloc
        → NewestFirst query (rows t.world.conn)
        → db_reader_history_last_json f alloc query limit
          ≡ reply (history_of t.accepted (clamp_limit limit))
    history_reply-accepted unpack max c {t} alloc query limit o e r free vacant later fine ample
          newest =
        let n = clamp_limit limit in
        let table : rows t.world.conn ≡ map (bind_state f) t.accepted =
          all_in_table unpack max c o e r free vacant in
        let asked = newest n (subst Rising (sym table) (Later-Rising t.accepted later)) in
        let answered : query n
            ≡ some (
                take n
                  (reverse (map (λ v. select (named columns v)) (map (bind_state f) t.accepted)))) =
          asked ∙ ap (λ x. some (take n (reverse (map (λ v. select (named columns v)) x)))) table in
        (history-joined f alloc ample query limit _ answered).0
        ∙ ap (λ x. reply (items_head ++ (joined (reverse x) ++ codes "]}")))
            (query_texts n t.accepted fine)
