-- ===== src/Gateway/Writer/Interrupted.antt =====
-- The inserts of a batch of `writer_thread` of src/app/telemetry_gateway.c, over a database that may roll
-- the transaction back by itself.
use telemetry_testbed.Base.{
  ◌≡◌, refl, sym, ap, ◌∙◌, ◌⊎◌, inl, inr, List, [], ◌∷◌, ◌++◌, append_assoc, append-nil, map, none,
  some, false, arith, Bool-cases,
}
use mathlib.Core.List.{Sublist}
use mathlib.Core.List.Sublist
use telemetry_testbed.Types.{TelemetryState, Float}
use telemetry_testbed.Db.Row.{Value, bind_state}
use telemetry_testbed.Db.Sqlite.{Sqlite, Journal}
use telemetry_testbed.Gateway.Writer.{insert_all}

module _ (f : Float) (db : Sqlite f.F) (journal : Journal db) where
  open f use {F}
  open db use {Conn, insert}
  open journal use {rows, opened}

  -- Outside a transaction the rows of some samples are added, each at once.
  pub record Scattered (c c' : Conn) (batch : List (TelemetryState F)) : Type 0 where
    pub part : List (TelemetryState F)
    pub among : Sublist part batch
    pub added : rows c' ≡ rows c ++ map (bind_state f) part
    pub outside : opened c' ≡ none

  insert_all-Scattered :
      (c : Conn) (batch : List (TelemetryState F))
      → opened c ≡ none
      → Scattered c (insert_all f db c batch).0 batch
  unfolding insert_all
  insert_all-Scattered c [] o = record {
    part = [];
    among = Sublist.refl [];
    added = sym (append-nil (rows c));
    outside = o;
  }
  insert_all-Scattered c (s ∷ batch) o =
      let v = bind_state f s in
      elim (Bool-cases (insert c v).1) [
        | inl stored ↦
            let (r, o₁) = journal.autocommit_done c v o stored in
            let later = insert_all-Scattered (insert c v).0 batch o₁ in
            record {
              part = s ∷ later.part;
              among = Sublist.cons-cons s later.among;
              added =
                  later.added
                  ∙ ap (λ l. l ++ map (bind_state f) later.part) r
                  ∙ append_assoc (rows c) (v ∷ []) (map (bind_state f) later.part);
              outside = later.outside;
            }
        | inr refused ↦
            let (r, o₁) = journal.autocommit_refused c v o refused in
            let later = insert_all-Scattered (insert c v).0 batch o₁ in
            record {
              part = later.part;
              among = Sublist.cons s later.among;
              added = later.added ∙ ap (λ l. l ++ map (bind_state f) later.part) r;
              outside = later.outside;
            }
      ]

  -- The insert of one sample rolled the transaction back, and of those behind it some were stored.
  pub record IsInterrupted (c : Conn) (batch : List (TelemetryState F)) : Type 0 where
    pub before : List (TelemetryState F)
    pub s : TelemetryState F
    pub after : List (TelemetryState F)
    pub part : List (TelemetryState F)
    pub cut : batch ≡ before ++ (s ∷ after)
    pub ended : opened (insert_all f db c (before ++ (s ∷ []))).0 ≡ none
    pub among : Sublist part after
    pub added : rows (insert_all f db c batch).0 ≡ rows c ++ map (bind_state f) part
    pub outside : opened (insert_all f db c batch).0 ≡ none
    pub failed : (insert_all f db c batch).1 ≡ false

  -- The transaction is still open. If all inserts succeed, it has added the rows of the batch.
  pub record IsOpen (c : Conn) (new : List (List (Value F))) (batch : List (TelemetryState F))
      : Type 0 where
    pub more : List (List (Value F))
    pub same : rows (insert_all f db c batch).0 ≡ rows c
    pub open_with : opened (insert_all f db c batch).0 ≡ some more
    pub all : ((insert_all f db c batch).1 ≡ false) ⊎ (more ≡ new ++ map (bind_state f) batch)

  -- One more sample in front, whose insert leaves the transaction open.
  IsInterrupted-cons :
      (c : Conn) (s : TelemetryState F) (batch : List (TelemetryState F))
      → rows (insert c (bind_state f s)).0 ≡ rows c
      → IsInterrupted (insert c (bind_state f s)).0 batch
      → IsInterrupted c (s ∷ batch)
  unfolding insert_all
  IsInterrupted-cons c s batch r i = record {
    before = s ∷ i.before;
    s = i.s;
    after = i.after;
    part = i.part;
    cut = ap (◌∷◌ s) i.cut;
    ended = i.ended;
    among = i.among;
    added = i.added ∙ ap (λ l. l ++ map (bind_state f) i.part) r;
    outside = i.outside;
    failed = ground (arith, i.failed);
  }

  IsInterrupted-first :
      (c : Conn) (s : TelemetryState F) (batch : List (TelemetryState F))
      → (insert c (bind_state f s)).1 ≡ false
      → rows (insert c (bind_state f s)).0 ≡ rows c
      → opened (insert c (bind_state f s)).0 ≡ none
      → IsInterrupted c (s ∷ batch)
  unfolding insert_all
  IsInterrupted-first c s batch refused r o =
      let later = insert_all-Scattered (insert c (bind_state f s)).0 batch o in
      record {
        before = [];
        s = s;
        after = batch;
        part = later.part;
        cut = refl;
        ended = o;
        among = later.among;
        added = later.added ∙ ap (λ l. l ++ map (bind_state f) later.part) r;
        outside = later.outside;
        failed = ground (arith, refused);
      }

  IsOpen-stored :
      (c : Conn) (new : List (List (Value F))) (s : TelemetryState F)
      (batch : List (TelemetryState F))
      → rows (insert c (bind_state f s)).0 ≡ rows c
      → IsOpen (insert c (bind_state f s)).0 (new ++ (bind_state f s ∷ [])) batch
      → IsOpen c new (s ∷ batch)
  unfolding insert_all
  IsOpen-stored c new s batch r l = record {
    more = l.more;
    same = l.same ∙ r;
    open_with = l.open_with;
    all = elim l.all [
      | inl lost ↦ inl (ground (arith, lost))
      | inr e ↦ inr (e ∙ append_assoc new (bind_state f s ∷ []) (map (bind_state f) batch))
    ];
  }

  IsOpen-refused :
      (c : Conn) (new : List (List (Value F))) (s : TelemetryState F)
      (batch : List (TelemetryState F))
      → (insert c (bind_state f s)).1 ≡ false
      → rows (insert c (bind_state f s)).0 ≡ rows c
      → IsOpen (insert c (bind_state f s)).0 new batch
      → IsOpen c new (s ∷ batch)
  unfolding insert_all
  IsOpen-refused c new s batch refused r l = record {
    more = l.more;
    same = l.same ∙ r;
    open_with = l.open_with;
    all = inl (ground (arith, refused));
  }

  pub insert_all-IsInterrupted :
      (c : Conn) (new : List (List (Value F))) (batch : List (TelemetryState F))
      → opened c ≡ some new
      → IsOpen c new batch ⊎ IsInterrupted c batch
  insert_all-IsInterrupted c new [] o = inl (
      unfold insert_all in
      record { more = new; same = refl; open_with = o; all = inr (sym (append-nil new)) })
  insert_all-IsInterrupted c new (s ∷ batch) o =
      let v = bind_state f s in
      elim (Bool-cases (insert c v).1) [
        | inl stored ↦
            let (r, o₁) = journal.insert_done c new v o stored in
            elim (insert_all-IsInterrupted (insert c v).0 (new ++ (v ∷ [])) batch o₁) [
              | inl l ↦ inl (IsOpen-stored c new s batch r l)
              | inr i ↦ inr (IsInterrupted-cons c s batch r i)
            ]
        | inr refused ↦
            let (r, o₁) = journal.insert_refused c new v o refused in
            elim o₁ [
              | inr gone ↦ inr (IsInterrupted-first c s batch refused r gone)
              | inl still ↦ elim (insert_all-IsInterrupted (insert c v).0 new batch still) [
                | inl l ↦ inl (IsOpen-refused c new s batch refused r l)
                | inr i ↦ inr (IsInterrupted-cons c s batch r i)
              ]
            ]
      ]
