-- ===== src/Gateway/Pipeline/Turns.antt =====
-- The batches that `writer_thread` of src/app/telemetry_gateway.c has handled, and those after them.
use telemetry_testbed.Base.{
  ℕ, ◌+◌, ◌≡◌, refl, ap, sym, ◌∙◌, List, [], ◌∷◌, ◌++◌, append_assoc, append-nil, arith, length,
  length-append,
}
use telemetry_testbed.Types.{Float}
use telemetry_testbed.Db.Sqlite.{Sqlite}
use telemetry_testbed.Gateway.Writer.{broadcasts}
use telemetry_testbed.Gateway.Pipeline.Outcome.{kept_of, offered_of, commits_of}
use telemetry_testbed.Gateway.Pipeline.Trace.{Turn, batches, kept, offered, commits, heard}

module _ {F : Type 0} where
  batches-append : (xs ys : List (Turn F)) → batches (xs ++ ys) ≡ batches xs ++ batches ys
  batches-append [] ys = refl
  batches-append (t ∷ ts) ys =
      ap (λ l. t.batch ++ l) (batches-append ts ys)
      ∙ sym (append_assoc t.batch (batches ts) (batches ys))

  kept-append : (xs ys : List (Turn F)) → kept (xs ++ ys) ≡ kept xs ++ kept ys
  kept-append [] ys = refl
  kept-append (t ∷ ts) ys =
      ap (λ l. kept_of t.fate t.batch ++ l) (kept-append ts ys)
      ∙ sym (append_assoc (kept_of t.fate t.batch) (kept ts) (kept ys))

  pub offered-append : (xs ys : List (Turn F)) → offered (xs ++ ys) ≡ offered xs ++ offered ys
  offered-append [] ys = refl
  offered-append (t ∷ ts) ys =
      ap (λ l. offered_of t.fate t.batch ++ l) (offered-append ts ys)
      ∙ sym (append_assoc (offered_of t.fate t.batch) (offered ts) (offered ys))

  pub commits-append : (xs ys : List (Turn F)) → commits (xs ++ ys) ≡ commits xs + commits ys
  commits-append [] ys = omega arith
  commits-append (t ∷ ts) ys = omega (arith, commits-append ts ys)

  -- One batch more.
  pub batches-snoc :
      (ts : List (Turn F)) (t : Turn F) → batches (ts ++ (t ∷ [])) ≡ batches ts ++ t.batch
  batches-snoc ts t = batches-append ts (t ∷ []) ∙ ap (λ l. batches ts ++ l) (append-nil t.batch)

  pub kept-snoc :
      (ts : List (Turn F)) (t : Turn F) → kept (ts ++ (t ∷ [])) ≡ kept ts ++ kept_of t.fate t.batch
  kept-snoc ts t =
      kept-append ts (t ∷ []) ∙ ap (λ l. kept ts ++ l) (append-nil (kept_of t.fate t.batch))

  pub length-offered-snoc :
      (ts : List (Turn F)) (t : Turn F)
      → length (offered (ts ++ (t ∷ []))) ≡ length (offered ts) + length (offered_of t.fate t.batch)
  length-offered-snoc ts t =
      ap length (offered-append ts (t ∷ []) ∙ ap (λ l. offered ts ++ l) (append-nil _))
      ∙ length-append (offered ts) (offered_of t.fate t.batch)

  pub commits-snoc :
      (ts : List (Turn F)) (t : Turn F) → commits (ts ++ (t ∷ [])) ≡ commits ts + commits_of t.fate
  commits-snoc ts t = omega (arith, commits-append ts (t ∷ []))

pub heard-append :
    (f : Float) (db : Sqlite f.F) (xs ys : List (Turn f.F))
    → heard f db (xs ++ ys) ≡ heard f db xs ++ heard f db ys
heard-append f db [] ys = refl
heard-append f db (t ∷ ts) ys =
    ap (λ l. now ++ l) (heard-append f db ts ys)
    ∙ sym (append_assoc now (heard f db ts) (heard f db ys))
  where
    now : List (List ℕ)
    now = broadcasts f db t.alloc (offered_of t.fate t.batch)
