-- ===== src/Gateway/Queue/Fifo.antt =====
-- Every interleaving of the MQTT callback and the writer thread of src/app/telemetry_gateway.c on
-- the queue. Each step holds `q_mu` from its first access to its last.
use telemetry_testbed.Base.{
  ℕ, ◌%◌, ◌^◌, ◌≡◌, ◌≢◌, refl, sym, ap, subst, suc, ◌∙◌, List, [], ◌∷◌, ◌++◌, append_assoc, none,
  some, Bool, inl, inr, arith, length, take, drop, take-append-drop,
}
use telemetry_testbed.Gateway.Queue.{Queue, empty, queue_push, waits, takes, queue_pop_batch}
use telemetry_testbed.Gateway.Queue.Refinement.{
  Holds, samples, empty-Holds, queue_push-Holds, queue_pop_batch-Holds,
}

-- The queue, the samples pushed into it so far and those taken out so far, each in order.
pub record Traffic (A : Type 0) : Type 0 where
  pub q : Queue A
  pub pushed : List A
  pub taken : List A

abbrev pub idle : {A : Type 0} → Traffic A
idle = record { q = empty; pushed = []; taken = [] }

-- `calloc` gives a push an address that is not NULL and has no node, or NULL, and the sample is
-- lost. The writer takes a batch, or waits.
pub data Step {A : Type 0} (t : Traffic A) : Traffic A → Type 0 where
  push :
      (n : ℕ) (s : A) (q' : Queue A)
      → n ≢ 0
      → t.q.heap n ≡ none
      → queue_push (some n) t.q s ≡ some q'
      → Step t (record t { q = q'; pushed = t.pushed ++ (s ∷ []) })
  lose : (s : A) (q' : Queue A) → queue_push none t.q s ≡ some q' → Step t (record t { q = q' })
  wait : (max : ℕ) (running : Bool) → queue_pop_batch running t.q max ≡ waits → Step t t
  pop :
      (max : ℕ) (running : Bool) (batch : List A) (q' : Queue A)
      → queue_pop_batch running t.q max ≡ takes (some (batch, q'))
      → Step t (record t { q = q'; taken = t.taken ++ batch })

pub data Reach {A : Type 0} : Traffic A → Type 0 where
  start : Reach idle
  next : {t u : Traffic A} → Reach t → Step t u → Reach u

-- What is in the queue is what was pushed and not taken, in order.
pub record InOrder {A : Type 0} (t : Traffic A) : Type 0 where
  pub cells : List (ℕ × A)
  pub holds : Holds t.q cells
  pub order : t.pushed ≡ t.taken ++ samples cells

module _ {A : Type 0} where
  pub samples-append : (xs ys : List (ℕ × A)) → samples (xs ++ ys) ≡ samples xs ++ samples ys
  samples-append [] ys = refl
  samples-append ((a, s) ∷ xs) ys = ap (◌∷◌ s) (samples-append xs ys)

  pub split-samples :
      (max : ℕ) (cells : List (ℕ × A))
      → samples (take max cells) ++ samples (drop max cells) ≡ samples cells
  split-samples max cells =
      sym (samples-append (take max cells) (drop max cells))
      ∙ ap samples (take-append-drop max cells)

  pub push_lost : (q q' : Queue A) (s : A) → queue_push none q s ≡ some q' → q ≡ q'
  unfolding queue_push
  push_lost q q' s e = cc

  Step-InOrder : {t u : Traffic A} → Step t u → InOrder t → InOrder u
  Step-InOrder {t} (push n s q' z f e) i =
      let (q₁, e₁, r) = queue_push-Holds t.q n s i.cells z f i.holds in
      let same : q₁ ≡ q' = cc in
      record {
        cells = i.cells ++ ((n, s) ∷ []);
        holds = subst (λ q. Holds q (i.cells ++ ((n, s) ∷ []))) same r;
        order =
            ap (λ l. l ++ (s ∷ [])) i.order
            ∙ append_assoc t.taken (samples i.cells) (s ∷ [])
            ∙ ap (◌++◌ t.taken) (sym (samples-append i.cells ((n, s) ∷ [])));
      }
  Step-InOrder {t} (lose s q' e) i = record {
    cells = i.cells;
    holds = subst (λ q. Holds q i.cells) (push_lost t.q q' s e) i.holds;
    order = i.order;
  }
  Step-InOrder {t} (wait max running e) i = i
  Step-InOrder {t} (pop max running batch q' e) i =
      elim (queue_pop_batch-Holds running t.q max i.cells i.holds) [
        | inl (run, none_left, w) ↦ absurd (ground (arith, w, e))
        | inr (q₁, e₁, r) ↦
            let same : q₁ ≡ q' = ground (arith, e₁, e) in
            let got : samples (take max i.cells) ≡ batch = ground (arith, e₁, e) in
            record {
              cells = drop max i.cells;
              holds = subst (λ q. Holds q (drop max i.cells)) same r;
              order =
                  i.order
                  ∙ ap (◌++◌ t.taken) (sym (split-samples max i.cells))
                  ∙ sym (
                      append_assoc t.taken (samples (take max i.cells))
                        (samples (drop max i.cells)))
                  ∙ ap (λ l. (t.taken ++ l) ++ samples (drop max i.cells)) got;
            }
      ]

  Reach-InOrder : {t : Traffic A} → Reach t → InOrder t
  Reach-InOrder start = record { cells = []; holds = empty-Holds; order = refl }
  Reach-InOrder (next r st) = Step-InOrder st (Reach-InOrder r)

  pub length-samples : (cells : List (ℕ × A)) → length (samples cells) ≡ length cells
  length-samples [] = refl
  length-samples ((a, s) ∷ cells) = ap suc (length-samples cells)

  -- After any interleaving the samples taken out, followed by some that wait, are the samples pushed
  -- in, each once and in order, and `q_len` counts those that wait, modulo 2 ^ 64.
  pub fifo :
      {t : Traffic A}
      → Reach t
      → (waiting : List A) × (t.pushed ≡ t.taken ++ waiting) × (t.q.q_len ≡ length waiting % 2 ^ 64)
  fifo {t} r =
      let i = Reach-InOrder r in
      (samples i.cells, i.order, i.holds.len ∙ ap (λ n. n % 2 ^ 64) (sym (length-samples i.cells)))

  -- After any interleaving no push and no batch goes through an address without a node, whatever
  -- address `calloc` gives that is not NULL and has no node.
  pub queue_no_fault :
      {t : Traffic A} (n : ℕ) (s : A) (running : Bool) (max : ℕ)
      → Reach t
      → n ≢ 0
      → t.q.heap n ≡ none
      → (queue_push (some n) t.q s ≢ none) × (queue_pop_batch running t.q max ≢ takes none)
  queue_no_fault {t} n s running max r z f =
      let i = Reach-InOrder r in
      let (q₁, e₁, r₁) = queue_push-Holds t.q n s i.cells z f i.holds in
      let batch = queue_pop_batch-Holds running t.q max i.cells i.holds in
      ((λ p. ground (arith, e₁, p)), λ p. ground (arith, batch, p))
