-- ===== src/Ws/Sha1/Absorb.antt =====
-- `sha1_update` of src/infra/websocket/ws_server.c absorbs bytes: its context stands for all that came.
use telemetry_testbed.Base.{
  ℕ, zero, suc, ◌+◌, ◌-◌, ◌*◌, ◌/◌, ◌%◌, ◌^◌, ◌≤◌, ◌<◌, ◌≡◌, refl, sym, ap, subst, ◌∙◌, ltb, leb,
  Bool-cases, inl, inr, List, [], ◌∷◌, ◌++◌, append_assoc, append-nil, length, length-append,
  length-take, take, drop, take-append, take-append-drop, All-append, arith, true, false,
}
use telemetry_testbed.Ws.Socket.Transfer.{length-drop}
use telemetry_testbed.Ws.Sha1.{
  Words5, Sha1Ctx, initial_state, zeros, sha1_init, sha1_transform, copy_at, whole_blocks,
  sha1_update,
}
use telemetry_testbed.Ws.Sha1.Blocks.{
  concat, IsBlock, hash, hash-append, concat-append, length-concat, Cut, uncut, whole_blocks-Cut,
}

-- The context after the bytes so far: the state has absorbed their whole blocks, and the rest stands
-- at the start of the buffer.
pub record Absorbed (bytes : List ℕ) (ctx : Sha1Ctx) : Type 0 where
  pub cut : Cut bytes
  pub state : ctx.state ≡ hash initial_state cut.blocks
  pub held : take (length cut.rest) ctx.buffer ≡ cut.rest
  pub room : length ctx.buffer ≡ 64
  pub count : ctx.count ≡ length bytes * 8 % 2 ^ 64

pub length-zeros : (n : ℕ) → length (zeros n) ≡ n
length-zeros zero = refl
length-zeros (suc n) = ap suc (length-zeros n)

pub sha1_init-Absorbed : Absorbed [] sha1_init
unfolding sha1_init
sha1_init-Absorbed = record {
  cut = uncut [] (omega arith);
  state = refl;
  held = refl;
  room = refl;
  count = refl;
}

-- `idx`: the bytes that the buffer holds.
pub idx_lem :
    (bytes : List ℕ) (ctx : Sha1Ctx) (a : Absorbed bytes ctx)
    → ctx.count / 8 % 64 ≡ length a.cut.rest
idx_lem bytes ctx a =
    let all = ap length a.cut.parts in
    omega (
      arith,
      a.count,
      all,
      length-append (concat a.cut.blocks) a.cut.rest,
      length-concat a.cut.blocks a.cut.whole,
      a.cut.short,
    )

pub length-copy_at :
    (idx : ℕ) (src buffer : List ℕ)
    → idx + length src ≤ length buffer
    → length (copy_at idx src buffer) ≡ length buffer
length-copy_at idx src buffer h = omega (
  arith,
  length-append (take idx buffer) (src ++ drop (idx + length src) buffer),
  length-append src (drop (idx + length src) buffer),
  length-take idx buffer,
  length-drop (idx + length src) buffer,
)

pub take_of_append : (n : ℕ) (xs ys : List ℕ) → n ≡ length xs → take n (xs ++ ys) ≡ xs
take_of_append n xs ys e = ap (λ k. take k (xs ++ ys)) e ∙ take-append xs ys

pub take-copy_at :
    (idx : ℕ) (src buffer : List ℕ)
    → idx ≤ length buffer
    → take (idx + length src) (copy_at idx src buffer) ≡ take idx buffer ++ src
take-copy_at idx src buffer h =
    ap (take (idx + length src)) (sym (append_assoc (take idx buffer) src _))
    ∙ take_of_append (idx + length src) (take idx buffer ++ src) _
        (omega (arith, length-append (take idx buffer) src, length-take idx buffer))

pub count_step :
    (bytes more : List ℕ) (count : ℕ)
    → count ≡ length bytes * 8 % 2 ^ 64
    → (count + length more * 8 % 2 ^ 64) % 2 ^ 64 ≡ length (bytes ++ more) * 8 % 2 ^ 64
count_step bytes more count e = omega (arith, e, length-append bytes more)

abbrev pub next_count : Sha1Ctx → List ℕ → ℕ
next_count ctx more = (ctx.count + length more * 8 % 2 ^ 64) % 2 ^ 64

pub sha1_update-short :
    (ctx : Sha1Ctx) (more : List ℕ) (idx : ℕ)
    → ctx.count / 8 % 64 ≡ idx
    → length more < 64 - idx
    → sha1_update ctx more
      ≡ record ctx { count = next_count ctx more; buffer = copy_at idx more ctx.buffer }
unfolding sha1_update
sha1_update-short ctx more idx e h =
    let test : leb (64 - idx) (length more) ≡ false = ground arith in rw (e, test) refl

pub sha1_update-long :
    (ctx : Sha1Ctx) (more : List ℕ) (idx : ℕ) (s : Words5) (left : List ℕ)
    → ctx.count / 8 % 64 ≡ idx
    → 64 - idx ≤ length more
    → let filled = copy_at idx (take (64 - idx) more) ctx.buffer in
      whole_blocks (length more) (sha1_transform ctx.state filled) (drop (64 - idx) more)
        ≡ (s, left)
      → sha1_update ctx more
        ≡ record { state = s; count = next_count ctx more; buffer = copy_at 0 left filled }
unfolding sha1_update
sha1_update-long ctx more idx s left e h loop =
    let test : leb (64 - idx) (length more) ≡ true = ground arith in rw (e, test, loop) refl

-- The buffer once it is full: the bytes held, and those that fill it up.
pub filled_block :
    (idx : ℕ) (more buffer rest : List ℕ)
    → idx ≡ length rest
    → idx < 64
    → 64 - idx ≤ length more
    → length buffer ≡ 64
    → take idx buffer ≡ rest
    → copy_at idx (take (64 - idx) more) buffer ≡ rest ++ take (64 - idx) more
filled_block idx more buffer rest e small enough room held =
    let whole : length (copy_at idx (take (64 - idx) more) buffer)
        ≡ idx + length (take (64 - idx) more) =
      omega (
        arith,
        room,
        length-take (64 - idx) more,
        length-copy_at idx (take (64 - idx) more) buffer
            (omega (arith, room, length-take (64 - idx) more)),
      ) in
    sym (take_whole (copy_at idx (take (64 - idx) more) buffer))
    ∙ ap (λ n. take n (copy_at idx (take (64 - idx) more) buffer)) whole
    ∙ take-copy_at idx (take (64 - idx) more) buffer (omega (arith, room))
    ∙ ap (λ t. t ++ take (64 - idx) more) held
  where
    take_whole : (xs : List ℕ) → take (length xs) xs ≡ xs
    take_whole xs = ap (take (length xs)) (sym (append-nil xs)) ∙ take-append xs []

pub short-Absorbed :
    (bytes more : List ℕ) (ctx : Sha1Ctx) (a : Absorbed bytes ctx)
    → length more < 64 - length a.cut.rest
    → Absorbed (bytes ++ more) (sha1_update ctx more)
short-Absorbed bytes more ctx a h =
    let idx = length a.cut.rest in
    subst (Absorbed (bytes ++ more)) (sym (sha1_update-short ctx more idx (idx_lem bytes ctx a) h))
      (record {
        cut = record {
          blocks = a.cut.blocks;
          rest = a.cut.rest ++ more;
          parts =
              ap (λ t. t ++ more) a.cut.parts ∙ append_assoc (concat a.cut.blocks) a.cut.rest more;
          whole = a.cut.whole;
          short = omega (arith, length-append a.cut.rest more);
        };
        state = a.state;
        held =
            ap (λ n. take n (copy_at idx more ctx.buffer)) (length-append a.cut.rest more)
            ∙ take-copy_at idx more ctx.buffer (omega (arith, a.room, a.cut.short))
            ∙ ap (λ t. t ++ more) a.held;
        room = length-copy_at idx more ctx.buffer (omega (arith, a.room)) ∙ a.room;
        count = count_step bytes more ctx.count a.count;
      })

pub join_parts :
    (bs cs : List (List ℕ)) (rest filled t d left bytes more : List ℕ)
    → bytes ≡ concat bs ++ rest
    → filled ≡ rest ++ t
    → more ≡ t ++ d
    → d ≡ concat cs ++ left
    → bytes ++ more ≡ concat (bs ++ (filled ∷ cs)) ++ left
join_parts bs cs rest filled t d left bytes more e₁ e₂ e₃ e₄ =
    ap (λ x. x ++ more) e₁
    ∙ append_assoc (concat bs) rest more
    ∙ ap (λ x. concat bs ++ (rest ++ x)) e₃
    ∙ ap (◌++◌ (concat bs)) (sym (append_assoc rest t d))
    ∙ ap (λ x. concat bs ++ (x ++ d)) (sym e₂)
    ∙ ap (λ x. concat bs ++ (filled ++ x)) e₄
    ∙ ap (◌++◌ (concat bs)) (sym (append_assoc filled (concat cs) left))
    ∙ sym (append_assoc (concat bs) (filled ++ concat cs) left)
    ∙ ap (λ x. x ++ left) (sym (concat-append bs (filled ∷ cs)))

pub long-Absorbed :
    (bytes more : List ℕ) (ctx : Sha1Ctx) (a : Absorbed bytes ctx)
    → 64 - length a.cut.rest ≤ length more
    → Absorbed (bytes ++ more) (sha1_update ctx more)
long-Absorbed bytes more ctx a h =
    let idx = length a.cut.rest in
    let filled = copy_at idx (take (64 - idx) more) ctx.buffer in
    let block : filled ≡ a.cut.rest ++ take (64 - idx) more =
      filled_block idx more ctx.buffer a.cut.rest refl a.cut.short h a.room a.held in
    let full : length filled ≡ 64 =
      length-copy_at idx (take (64 - idx) more) ctx.buffer
        (omega (arith, a.room, a.cut.short, length-take (64 - idx) more))
      ∙ a.room in
    let (c, e) =
      whole_blocks-Cut (length more) (sha1_transform ctx.state filled) (drop (64 - idx) more)
        (omega (arith, length-drop (64 - idx) more)) in
    subst (Absorbed (bytes ++ more))
      (sym (sha1_update-long ctx more idx _ _ (idx_lem bytes ctx a) h e))
      (record {
        cut = record {
          blocks = a.cut.blocks ++ (filled ∷ c.blocks);
          rest = c.rest;
          parts =
              join_parts a.cut.blocks c.blocks a.cut.rest filled (take (64 - idx) more)
                (drop (64 - idx) more) c.rest bytes more a.cut.parts block
                (sym (take-append-drop (64 - idx) more)) c.parts;
          whole = All-append IsBlock a.cut.blocks (filled ∷ c.blocks) a.cut.whole (full, c.whole);
          short = c.short;
        };
        state =
            ap (λ s. hash (sha1_transform s filled) c.blocks) a.state
            ∙ sym (hash-append initial_state a.cut.blocks (filled ∷ c.blocks));
        held = take-append c.rest _;
        room = length-copy_at 0 c.rest filled (omega (arith, full, c.short)) ∙ full;
        count = count_step bytes more ctx.count a.count;
      })

pub sha1_update-Absorbed :
    (bytes more : List ℕ) (ctx : Sha1Ctx)
    → Absorbed bytes ctx
    → Absorbed (bytes ++ more) (sha1_update ctx more)
sha1_update-Absorbed bytes more ctx a =
    elim (Bool-cases (ltb (length more) (64 - length a.cut.rest))) [
      | inl few ↦ short-Absorbed bytes more ctx a (ground (arith, few))
      | inr many ↦ long-Absorbed bytes more ctx a (ground (arith, many))
    ]
