-- ===== src/Db/History/Contents.antt =====
-- What the history reply of src/infra/persistence/db_sqlite.c is made of.
use telemetry_testbed.Base.{
  ℕ, zero, suc, ◌+◌, ◌*◌, ◌≤◌, ◌≡◌, refl, ap, sym, ◌∙◌, if◌then◌else◌, List, [], ◌∷◌, ◌++◌,
  append_assoc, append-nil, reverse, map, Option, some, Bool, true, false, codes, arith, length,
  take, Bool-cases, inl, inr, leb, ◌==◌,
}
use telemetry_testbed.Base.Int.{ℤ, pos, negsuc}
use telemetry_testbed.Types.{Float}
use telemetry_testbed.Json.{head_format, motors_format}
use telemetry_testbed.Db.Buffer.{StrBuf, fresh, grow, sb_reserve, sb_append, sb_appendf}
use telemetry_testbed.Db.Row.{Value}
use telemetry_testbed.Db.History.{
  reply, items_head, clamp_limit, row_head, row_motor, has_motors, append_row_as_sample_json,
  collect, append_or_keep, emit, finish, db_reader_history_last_json,
}

-- The texts with a comma between each two.
abbrev pub joined : List (List ℕ) → List ℕ
joined [] = []
joined (t ∷ []) = t
joined (t ∷ u ∷ ts) = t ++ (codes "," ++ joined (u ∷ ts))

-- The telemetry object of one row of the result.
unfoldable pub sample_json : (f : Float) → List (Value f.F) → List ℕ
sample_json f st =
    head_format (row_head f st)
    ++ ((if has_motors f st then motors_format (row_motor f st 16) (row_motor f st 22) else [])
        ++ codes "}")

sample_json-motors :
    (f : Float) (st : List (Value f.F))
    → has_motors f st ≡ true
    → sample_json f st
      ≡ head_format (row_head f st)
        ++ (motors_format (row_motor f st 16) (row_motor f st 22) ++ codes "}")
unfolding sample_json
sample_json-motors f st e = rw e

sample_json-plain :
    (f : Float) (st : List (Value f.F))
    → has_motors f st ≡ false
    → sample_json f st ≡ head_format (row_head f st) ++ codes "}"
unfolding sample_json
sample_json-plain f st e = rw e

clamp_limit_bounds : (limit : ℤ) → (1 ≤ clamp_limit limit) × (clamp_limit limit ≤ 5000)
unfolding clamp_limit
clamp_limit_bounds (pos zero) = omega arith
clamp_limit_bounds (pos (suc n)) = ground arith
clamp_limit_bounds (negsuc n) = omega arith

-- Memory does not run out.
abbrev pub Ample : (ℕ → Bool) → Type 0
Ample alloc = (n : ℕ) → alloc n ≡ true

module _ (alloc : ℕ → Bool) (ample : Ample alloc) where
  sb_reserve-Ample :
      (sb : StrBuf) (n : ℕ) → (r : StrBuf) × (sb_reserve alloc sb n ≡ some r) × (r.text ≡ sb.text)
  unfolding sb_reserve
  sb_reserve-Ample sb n = elim (Bool-cases (leb (length sb.text + n + 1) sb.cap)) [
    | inl fits ↦ (sb, ground (arith, fits), refl)
    | inr short ↦ (
      record sb { cap = grow 64 (length sb.text + n + 1) (if sb.cap == 0 then 1024 else sb.cap) },
      ground (
        arith,
        short,
        ample (grow 64 (length sb.text + n + 1) (if sb.cap == 0 then 1024 else sb.cap)),
      ),
      refl,
    )
  ]

  sb_append-Ample :
      (sb : StrBuf) (s : List ℕ)
      → (r : StrBuf) × (sb_append alloc sb s ≡ some r) × (r.text ≡ sb.text ++ s)
  unfolding sb_append
  sb_append-Ample sb s =
      let (r, e, t) = sb_reserve-Ample sb (length s) in
      (record r { text = r.text ++ s }, ground (arith, e), ap (λ x. x ++ s) t)

  sb_appendf-append : (sb : StrBuf) (s : List ℕ) → sb_appendf alloc sb s ≡ sb_append alloc sb s
  unfolding sb_appendf
  sb_appendf-append sb s = ground (arith, ample (length s + 1))

  sb_appendf-Ample :
      (sb : StrBuf) (s : List ℕ)
      → (r : StrBuf) × (sb_appendf alloc sb s ≡ some r) × (r.text ≡ sb.text ++ s)
  sb_appendf-Ample sb s = let (r, e, t) = sb_append-Ample sb s in (r, sb_appendf-append sb s ∙ e, t)

  append_or_keep-Ample :
      (sb : StrBuf) (s : List ℕ) → (append_or_keep alloc sb s).text ≡ sb.text ++ s
  unfolding append_or_keep
  append_or_keep-Ample sb s = let (r, e, t) = sb_append-Ample sb s in ground (arith, e, t)

  emit_step :
      (sb : StrBuf) (t u : List ℕ) (ts : List (List ℕ))
      → emit alloc sb (t ∷ u ∷ ts)
        ≡ emit alloc (append_or_keep alloc (append_or_keep alloc sb t) (codes ",")) (u ∷ ts)
  unfolding emit
  emit_step sb t u ts = refl

  emit-joined : (sb : StrBuf) (ts : List (List ℕ)) → (emit alloc sb ts).text ≡ sb.text ++ joined ts
  emit-joined sb [] = unfold emit in sym (append-nil sb.text)
  emit-joined sb (t ∷ []) = unfold emit in append_or_keep-Ample sb t
  emit-joined sb (t ∷ u ∷ ts) =
      let one = append_or_keep alloc sb t in
      let two = append_or_keep alloc one (codes ",") in
      let mid : two.text ≡ (sb.text ++ t) ++ codes "," =
        append_or_keep-Ample one (codes ",")
        ∙ ap (λ x. x ++ codes ",") (append_or_keep-Ample sb t) in
      ap (λ (b : StrBuf). b.text) (emit_step sb t u ts)
      ∙ emit-joined two (u ∷ ts)
      ∙ ap (λ x. x ++ joined (u ∷ ts)) mid
      ∙ append_assoc (sb.text ++ t) (codes ",") (joined (u ∷ ts))
      ∙ append_assoc sb.text t (codes "," ++ joined (u ∷ ts))

  finish-Ample : (sb : StrBuf) → finish alloc sb ≡ reply (sb.text ++ codes "]}")
  finish-Ample sb = let (r, e, t) = sb_append-Ample sb (codes "]}") in ground (arith, e, t)

module _ (f : Float) (alloc : ℕ → Bool) (ample : Ample alloc) where
  open f use {F}

  row-Ample :
      (st : List (Value F))
      → (r : StrBuf) × (append_row_as_sample_json f alloc fresh st ≡ some r)
        × (r.text ≡ sample_json f st)
  unfolding append_row_as_sample_json
  row-Ample st =
      let (r₁, e₁, t₁) = sb_appendf-Ample alloc ample fresh (head_format (row_head f st)) in
      let motors = motors_format (row_motor f st 16) (row_motor f st 22) in
      let (r₂, e₂, t₂) = sb_appendf-Ample alloc ample r₁ motors in
      let (r₃, e₃, t₃) = sb_append-Ample alloc ample r₂ (codes "}") in
      let (r₄, e₄, t₄) = sb_append-Ample alloc ample r₁ (codes "}") in
      elim (Bool-cases (has_motors f st)) [
        | inl with_motors ↦
            let body = append_assoc (head_format (row_head f st)) motors (codes "}") in
            let spec = sample_json-motors f st with_motors in
            (
              r₃,
              ground (arith, e₁, e₂, e₃, with_motors),
              t₃ ∙ ap (λ x. x ++ codes "}") (t₂ ∙ ap (λ x. x ++ motors) t₁) ∙ body ∙ sym spec,
            )
        | inr no_motors ↦
            let spec = sample_json-plain f st no_motors in
            (r₄, ground (arith, e₁, e₄, no_motors), t₄ ∙ ap (λ x. x ++ codes "}") t₁ ∙ sym spec)
      ]

  collect-Ample :
      (room : ℕ) (rows : List (List (Value F)))
      → collect f alloc room rows ≡ map (sample_json f) (take room rows)
  unfolding collect
  collect-Ample zero rows = refl
  collect-Ample (suc room) [] = refl
  collect-Ample (suc room) (st ∷ rows) =
      let (r, e, t) = row-Ample st in ground (arith, e, t, collect-Ample room rows)

  answer :
      (query : ℕ → Option (List (List (Value F)))) (limit : ℤ) (rows : List (List (Value F)))
      (r : StrBuf)
      → query (clamp_limit limit) ≡ some rows
      → sb_append alloc fresh items_head ≡ some r
      → db_reader_history_last_json f alloc query limit
        ≡ finish alloc (emit alloc r (reverse (collect f alloc (clamp_limit limit) rows)))
  unfolding db_reader_history_last_json
  answer query limit rows r e e₁ = ground (arith, e, e₁, ample (clamp_limit limit * 8))

  -- Where memory does not run out and the query can be prepared, the history reply is `"items"` with
  -- one telemetry object for each row of the result, with commas between them, in the reverse of
  -- the query's order. The query is asked for 1 to 5000 rows, and no more are used.
  pub history-joined :
      (query : ℕ → Option (List (List (Value F)))) (limit : ℤ) (rows : List (List (Value F)))
      → query (clamp_limit limit) ≡ some rows
      → (db_reader_history_last_json f alloc query limit
          ≡ reply (
              items_head
              ++ (joined (reverse (map (sample_json f) (take (clamp_limit limit) rows)))
                  ++ codes "]}")))
        × (1 ≤ clamp_limit limit)
        × (clamp_limit limit ≤ 5000)
  history-joined query limit rows e =
      let n = clamp_limit limit in
      let (r, e₁, t) = sb_append-Ample alloc ample fresh items_head in
      let texts = reverse (collect f alloc n rows) in
      let body : (emit alloc r texts).text ≡ items_head ++ joined texts =
        emit-joined alloc ample r texts ∙ ap (λ x. x ++ joined texts) t in
      let whole : finish alloc (emit alloc r texts)
          ≡ reply
              (items_head ++ (joined (reverse (map (sample_json f) (take n rows))) ++ codes "]}")) =
        finish-Ample alloc ample (emit alloc r texts)
        ∙ ap (λ x. reply (x ++ codes "]}")) body
        ∙ ap reply (append_assoc items_head (joined texts) (codes "]}"))
        ∙ ap (λ x. reply (items_head ++ (joined (reverse x) ++ codes "]}")))
            (collect-Ample n rows) in
      let (lo, hi) = clamp_limit_bounds limit in (answer query limit rows r e e₁ ∙ whole, lo, hi)
