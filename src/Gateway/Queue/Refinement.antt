-- ===== src/Gateway/Queue/Refinement.antt =====
-- The linked queue of src/app/telemetry_gateway.c is a first-in first-out list of samples.
use telemetry_testbed.Base.{
  ℕ, zero, suc, ◌%◌, ◌^◌, ◌≡◌, ◌≢◌, refl, sym, ap, subst, ◌∙◌, List, [], ◌∷◌, ◌++◌, append_assoc,
  append-nil, Option, none, some, Bool, true, false, ◌⊎◌, inl, inr, arith, length, length-append,
  take, drop,
}
use telemetry_testbed.Gateway.Queue.{
  Node, Queue, store, empty, link, counted, queue_push, unlink, pop_loop, waits, takes,
  queue_pop_batch,
}

module _ {A : Type 0} where
  -- A cell is the address of a node with the sample in it.
  abbrev pub first : List (ℕ × A) → ℕ
  first [] = 0
  first ((a, s) ∷ cells) = a

  abbrev pub final : List (ℕ × A) → ℕ
  final [] = 0
  final ((a, s) ∷ []) = a
  final (c ∷ d ∷ cells) = final (d ∷ cells)

  abbrev pub samples : List (ℕ × A) → List A
  samples [] = []
  samples ((a, s) ∷ cells) = s ∷ samples cells

  abbrev pub Absent : ℕ → List (ℕ × A) → Type 0
  Absent n [] = Unit {0}
  Absent n ((a, s) ∷ cells) = (a ≢ n) × Absent n cells

  -- The nodes of the cells are linked in order, at different addresses, the last to NULL.
  abbrev pub Chain : (ℕ → Option (Node A)) → List (ℕ × A) → Type 0
  Chain h [] = Unit {0}
  Chain h ((a, s) ∷ cells) =
      (a ≢ 0) × (h a ≡ some (record { s = s; next = first cells })) × Absent a cells × Chain h cells

  -- The queue holds the cells, in order.
  pub record Holds (q : Queue A) (cells : List (ℕ × A)) : Type 0 where
    pub head : q.q_head ≡ first cells
    pub tail : q.q_tail ≡ final cells
    pub chain : Chain q.heap cells
    pub len : q.q_len ≡ length cells % 2 ^ 64

  pub empty-Holds : Holds empty []
  unfolding empty
  empty-Holds = record { head = refl; tail = refl; chain = tt; len = refl }

  -- A write to an address that no cell has.
  pub Chain-store :
      (h : ℕ → Option (Node A)) (n : ℕ) (v : Option (Node A)) (cells : List (ℕ × A))
      → Absent n cells
      → Chain h cells
      → Chain (store h n v) cells
  Chain-store h n v [] f c = tt
  Chain-store h n v ((a, s) ∷ cells) (ne, f) (z, e, g, c) =
      (z, ground arith, g, Chain-store h n v cells f c)

  Absent-final :
      (n : ℕ) (c : ℕ × A) (cells : List (ℕ × A)) → Absent n (c ∷ cells) → final (c ∷ cells) ≢ n
  Absent-final n (a, s) [] f = f.0
  Absent-final n (a, s) (d ∷ cells) f = Absent-final n d cells f.1

  Absent-append :
      (n m : ℕ) (s : A) (cells : List (ℕ × A))
      → Absent n cells
      → m ≢ n
      → Absent n (cells ++ ((m, s) ∷ []))
  Absent-append n m s [] f h = (h, tt)
  Absent-append n m s ((a, x) ∷ cells) f h = (f.0, Absent-append n m s cells f.1 h)

  final-append : (n : ℕ) (s : A) (cells : List (ℕ × A)) → final (cells ++ ((n, s) ∷ [])) ≡ n
  final-append n s [] = refl
  final-append n s (c ∷ []) = refl
  final-append n s (c ∷ d ∷ cells) = final-append n s (d ∷ cells)

  first-append :
      (n : ℕ) (s : A) (c : ℕ × A) (cells : List (ℕ × A))
      → first ((c ∷ cells) ++ ((n, s) ∷ [])) ≡ first (c ∷ cells)
  first-append n s (a, x) cells = refl

  Chain-link :
      (h : ℕ → Option (Node A)) (n : ℕ) (s : A) (c : ℕ × A) (cells : List (ℕ × A))
      → n ≢ 0
      → Absent n (c ∷ cells)
      → h n ≡ some (record { s = s; next = 0 })
      → Chain h (c ∷ cells)
      → (last : Node A) × (h (final (c ∷ cells)) ≡ some last)
        × Chain
            (store h (final (c ∷ cells)) (some (record last { next = n })))
            ((c ∷ cells) ++ ((n, s) ∷ []))
  Chain-link h n s (a, x) [] z (ne, f) e (za, ea, fa, ca) = (
    record { s = x; next = 0 },
    ea,
    (za, ground arith, (λ p. ne (sym p), tt), (z, ground arith, tt, tt)),
  )
  Chain-link h n s (a, x) ((b, y) ∷ cells) z (ne, f) e (za, ea, fa, ca) =
      let (last, el, cl) = Chain-link h n s (b, y) cells z f e ca in
      let other = Absent-final a (b, y) cells fa in
      (
        last,
        el,
        (
          za,
          ground (arith, ea, other),
          Absent-append a n s ((b, y) ∷ cells) fa (λ p. ne (sym p)),
          cl,
        ),
      )

  -- The state behind a write to `q_tail->next`.
  abbrev behind : Queue A → ℕ → Node A → Queue A
  behind q n last = record q { heap = store q.heap q.q_tail (some (record last { next = n })) }

  link-behind :
      (q : Queue A) (n : ℕ) (last : Node A)
      → q.q_tail ≢ 0
      → q.heap q.q_tail ≡ some last
      → link q n ≡ some (behind q n last)
  link-behind q n last ne e = ground arith

  Chain-final :
      (h : ℕ → Option (Node A)) (c : ℕ × A) (cells : List (ℕ × A))
      → Chain h (c ∷ cells)
      → final (c ∷ cells) ≢ 0
  Chain-final h (a, s) [] c = c.0
  Chain-final h (a, s) (d ∷ cells) c = Chain-final h d cells c.3

  link-Holds :
      (q : Queue A) (n : ℕ) (s : A) (cells : List (ℕ × A))
      → n ≢ 0
      → Absent n cells
      → q.heap n ≡ some (record { s = s; next = 0 })
      → Holds q cells
      → (q' : Queue A) × (link q n ≡ some q')
        × (q'.q_head ≡ first (cells ++ ((n, s) ∷ [])))
        × Chain q'.heap (cells ++ ((n, s) ∷ []))
        × (q'.q_len ≡ q.q_len)
  link-Holds q n s [] z f e r =
      (record q { q_head = n }, ground (arith, r.tail), refl, (z, e, tt, tt), refl)
  link-Holds q n s (c ∷ cells) z f e r =
      let (last, at_tail, grown) = Chain-link q.heap n s c cells z f e r.chain in
      let there : q.heap q.q_tail ≡ some last = ap q.heap r.tail ∙ at_tail in
      let ne : q.q_tail ≢ 0 = λ p. Chain-final q.heap c cells r.chain (sym r.tail ∙ p) in
      (
        behind q n last,
        link-behind q n last ne there,
        r.head ∙ sym (first-append n s c cells),
        subst
            (λ t.
              Chain (store q.heap t (some (record last { next = n })))
                ((c ∷ cells) ++ ((n, s) ∷ [])))
            (sym r.tail) grown,
        refl,
      )

  -- After a push that gets memory the queue holds one sample more, at its end.
  push-Holds :
      (q : Queue A) (n : ℕ) (s : A) (cells : List (ℕ × A))
      → n ≢ 0
      → Absent n cells
      → Holds q cells
      → (q' : Queue A) × (queue_push (some n) q s ≡ some q') × Holds q' (cells ++ ((n, s) ∷ []))
  unfolding queue_push
  push-Holds q n s cells z f r =
      let h = store q.heap n (some (record { s = s; next = 0 })) in
      let made : Queue A = record q { heap = h } in
      let held : Holds made cells = record {
        head = r.head;
        tail = r.tail;
        chain = Chain-store q.heap n (some (record { s = s; next = 0 })) cells f r.chain;
        len = r.len;
      } in
      let (q', linked, head, chain, len) = link-Holds made n s cells z f (ground arith) held in
      (
        counted (record q' { q_tail = n }),
        ground (arith, linked),
        record {
          head = head;
          tail = sym (final-append n s cells);
          chain = chain;
          len = omega (arith, len, r.len, length-append cells ((n, s) ∷ []));
        },
      )

  unlink-Holds :
      (q : Queue A) (a : ℕ) (s : A) (cells : List (ℕ × A))
      → Holds q ((a, s) ∷ cells)
      → Holds (unlink q (record { s = s; next = first cells })) cells
  unlink-Holds q a s [] r = record {
    head = refl;
    tail = refl;
    chain = tt;
    len = omega (arith, r.len);
  }
  unlink-Holds q a s ((b, x) ∷ cells) r = record {
    head = refl;
    tail = ground (arith, r.tail, r.chain);
    chain =
        subst (λ t. Chain (store q.heap t none) ((b, x) ∷ cells)) (sym r.head)
          (Chain-store q.heap a none ((b, x) ∷ cells) r.chain.2 r.chain.3);
    len = omega (arith, r.len);
  }

  pop_round :
      (max : ℕ) (q : Queue A) (n : Node A) (out : List A)
      → q.q_head ≢ 0
      → q.heap q.q_head ≡ some n
      → pop_loop (suc max) q out ≡ pop_loop max (unlink q n) (out ++ (n.s ∷ []))
  unfolding pop_loop
  pop_round max q n out ne here = ground arith

  pop_loop-Holds :
      (max : ℕ) (q : Queue A) (out : List A) (cells : List (ℕ × A))
      → Holds q cells
      → (q' : Queue A) × (pop_loop max q out ≡ some (out ++ samples (take max cells), q'))
        × Holds q' (drop max cells)
  pop_loop-Holds zero q out cells r = (q, unfold pop_loop in rw append-nil refl, r)
  pop_loop-Holds (suc max) q out [] r =
      (q, unfold pop_loop in rw append-nil (ground (arith, r.head)), r)
  pop_loop-Holds (suc max) q out ((a, s) ∷ cells) r =
      let n : Node A = record { s = s; next = first cells } in
      let (q', e, r') =
        pop_loop-Holds max (unlink q n) (out ++ (s ∷ [])) cells (unlink-Holds q a s cells r) in
      let here : q.heap q.q_head ≡ some n = ap q.heap r.head ∙ r.chain.1 in
      let ne : q.q_head ≢ 0 = λ p. r.chain.0 (sym r.head ∙ p) in
      (
        q',
        pop_round max q n out ne here
            ∙ e
            ∙ ap (λ t. some (t, q')) (append_assoc out (s ∷ []) (samples (take max cells))),
        r',
      )

  -- A heap that has no node at `n` has no cell there.
  Chain-Absent :
      (h : ℕ → Option (Node A)) (n : ℕ) (cells : List (ℕ × A))
      → h n ≡ none
      → Chain h cells
      → Absent n cells
  Chain-Absent h n [] e c = tt
  Chain-Absent h n ((a, s) ∷ cells) e c = ((λ p. cc (ap h p, c.1)), Chain-Absent h n cells e c.3)

  -- Let the queue hold some samples, and let `calloc` return an address that is not NULL and has no
  -- node. Then `queue_push` meets no bad address, and the queue holds the new sample behind them.
  pub queue_push-Holds :
      (q : Queue A) (n : ℕ) (s : A) (cells : List (ℕ × A))
      → n ≢ 0
      → q.heap n ≡ none
      → Holds q cells
      → (q' : Queue A) × (queue_push (some n) q s ≡ some q') × Holds q' (cells ++ ((n, s) ∷ []))
  queue_push-Holds q n s cells z e r =
      push-Holds q n s cells z (Chain-Absent q.heap n cells e r.chain) r

  -- Let the queue hold some samples. Then `queue_pop_batch` meets no bad address. While the gateway
  -- runs and the queue is empty it waits. Otherwise it returns the oldest samples, in order, as many
  -- as there are or `max` of them, and the queue holds the rest.
  pub queue_pop_batch-Holds :
      (running : Bool) (q : Queue A) (max : ℕ) (cells : List (ℕ × A))
      → Holds q cells
      → ((running ≡ true) × (cells ≡ []) × (queue_pop_batch running q max ≡ waits))
        ⊎ ((q' : Queue A) × (queue_pop_batch running q max
              ≡ takes (some (samples (take max cells), q')))
            × Holds q' (drop max cells))
  unfolding queue_pop_batch
  queue_pop_batch-Holds false q max cells r =
      let (q', e, r') = pop_loop-Holds max q [] cells r in inr (q', ap takes e, r')
  queue_pop_batch-Holds true q max [] r = inl (refl, refl, ground (arith, r.head))
  queue_pop_batch-Holds true q max ((a, s) ∷ cells) r =
      let (q', e, r') = pop_loop-Holds max q [] ((a, s) ∷ cells) r in
      inr (q', ground (arith, e, r.head, r.chain.0), r')
