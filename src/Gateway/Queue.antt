-- ===== src/Gateway/Queue.antt =====
-- `queue_push` and `queue_pop_batch` of src/app/telemetry_gateway.c on an explicit heap of `qnode_t`.
-- An address is a number, and 0 is NULL. `none` is an access through an address with no node.
-- `q_len` is a `size_t`.
pub mod Refinement
pub mod Fifo
pub mod Release
use telemetry_testbed.Base.{
  ℕ, zero, suc, ◌+◌, ◌-◌, ◌%◌, ◌^◌, ◌==◌, if◌then◌else◌, ltb, List, [], ◌∷◌, ◌++◌, Option, none,
  some, Bool, true, false,
}

pub record Node (A : Type 0) : Type 0 where
  pub s : A
  pub next : ℕ

pub record Queue (A : Type 0) : Type 0 where
  pub heap : ℕ → Option (Node A)
  pub q_head : ℕ
  pub q_tail : ℕ
  pub q_len : ℕ
  pub q_len_max : ℕ

abbrev pub store : {A : Type 0} → (ℕ → Option (Node A)) → ℕ → Option (Node A) → ℕ → Option (Node A)
store h a v b = if a == b then v else h b

-- What one wake-up of the writer finds under the mutex: it goes back to wait on `q_cv`, or takes
-- up to `max` samples. Waiting changes nothing.
pub data Wake (A : Type 0) : Type 0 where
  waits : Wake A
  takes : Option (List A × Queue A) → Wake A

module _ {A : Type 0} where
  -- `calloc`ed gateway: no node, null pointers, counters 0.
  unfoldable pub empty : Queue A
  empty = record { heap = λ a. none; q_head = 0; q_tail = 0; q_len = 0; q_len_max = 0 }

  abbrev counted : Queue A → Queue A
  counted q =
      let len = (q.q_len + 1) % 2 ^ 64 in
      record q { q_len = len; q_len_max = if ltb q.q_len_max len then len else q.q_len_max }

  -- `if (q_tail) q_tail->next = n; else q_head = n;`
  abbrev link : Queue A → ℕ → Option (Queue A)
  link q n = if q.q_tail == 0 then some (record q { q_head = n }) else behind
    where
      behind : Option (Queue A)
      behind = elim (q.heap q.q_tail) [
        | none ↦ none
        | some last ↦
            some (record q { heap = store q.heap q.q_tail (some (record last { next = n })) })
      ]

  -- `calloc` returns an address, or `none` for NULL, where the sample is dropped.
  unfoldable pub queue_push : Option ℕ → Queue A → A → Option (Queue A)
  queue_push none q s = some q
  queue_push (some n) q s =
      let made : Queue A = record q { heap = store q.heap n (some (record { s = s; next = 0 })) } in
      elim (link made n) [ none ↦ none | some q' ↦ some (counted (record q' { q_tail = n })) ]

  -- Taking the first node off and freeing it.
  abbrev unlink : Queue A → Node A → Queue A
  unlink q n = record q {
    heap = store q.heap q.q_head none;
    q_head = n.next;
    q_tail = if n.next == 0 then 0 else q.q_tail;
    q_len = (q.q_len + 2 ^ 64 - 1) % 2 ^ 64;
  }

  -- The second loop of `queue_pop_batch`, with room for as many more samples in `out`.
  unfoldable pub pop_loop : ℕ → Queue A → List A → Option (List A × Queue A)
  pop_loop zero q out = some (out, q)
  pop_loop (suc room) q out = elim (q.q_head == 0) [
    | true ↦ some (out, q)
    | false ↦ elim (q.heap q.q_head) [
      | none ↦ none
      | some n ↦ pop_loop room (unlink q n) (out ++ (n.s ∷ []))
    ]
  ]

  unfoldable pub queue_pop_batch : Bool → Queue A → ℕ → Wake A
  unfolding pop_loop
  queue_pop_batch running q max = waiting running (q.q_head == 0)
    where
      waiting : Bool → Bool → Wake A
      waiting true true = waits
      waiting true false = takes (pop_loop max q [])
      waiting false b = takes (pop_loop max q [])
