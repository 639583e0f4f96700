-- ===== src/Gateway/Queue/Release.antt =====
-- The last loop of `telemetry_gateway_stop` of src/app/telemetry_gateway.c, over the nodes that are
-- still in the queue.
use telemetry_testbed.Base.{
  ℕ, zero, suc, ◌≤◌, ◌==◌, ◌≡◌, ◌≢◌, refl, ap, ◌∙◌, if◌then◌else◌, List, [], ◌∷◌, Option, none,
  some, arith, length, true, false,
}
use telemetry_testbed.Gateway.Queue.{Node, Queue, store}
use telemetry_testbed.Gateway.Queue.Refinement.{Holds, Chain, first, samples, Chain-store}

module _ {A : Type 0} where
  -- `none` is an access through an address with no node. The samples are those whose raw buffer is
  -- freed, where they have one, in order.
  unfoldable pub release : ℕ → (ℕ → Option (Node A)) → ℕ → Option ((ℕ → Option (Node A)) × List A)
  release zero h q = if q == 0 then some (h, []) else none
  release (suc fuel) h q = elim (q == 0) [
    | true ↦ some (h, [])
    | false ↦ elim (h q) [
      | none ↦ none
      | some n ↦ elim (release fuel (store h q none) n.next) [
        | none ↦ none
        | some (h', freed) ↦ some (h', n.s ∷ freed)
      ]
    ]
  ]

  -- No cell has a node.
  abbrev pub Gone : (ℕ → Option (Node A)) → List (ℕ × A) → Type 0
  Gone h [] = Unit {0}
  Gone h ((a, s) ∷ cells) = (h a ≡ none) × Gone h cells

  release_round :
      (fuel : ℕ) (h h' : ℕ → Option (Node A)) (q : ℕ) (n : Node A) (freed : List A)
      → q ≢ 0
      → h q ≡ some n
      → release fuel (store h q none) n.next ≡ some (h', freed)
      → release (suc fuel) h q ≡ some (h', n.s ∷ freed)
  unfolding release
  release_round fuel h h' q n freed z e r = ground (arith, z, e, r)

  release-Chain :
      (fuel : ℕ) (h : ℕ → Option (Node A)) (cells : List (ℕ × A))
      → Chain h cells
      → length cells ≤ fuel
      → (h' : ℕ → Option (Node A)) × (release fuel h (first cells) ≡ some (h', samples cells))
        × Gone h' cells
        × ((a : ℕ) → h a ≡ none → h' a ≡ none)
  release-Chain zero h [] c few = (h, unfold release in refl, tt, λ a e. e)
  release-Chain (suc fuel) h [] c few = (h, unfold release in refl, tt, λ a e. e)
  release-Chain zero h ((a, s) ∷ cells) c few = absurd (omega arith)
  release-Chain (suc fuel) h ((a, s) ∷ cells) (z, e, absent, c) few =
      let n : Node A = record { s = s; next = first cells } in
      let (h', r, gone, kept) =
        release-Chain fuel (store h a none) cells (Chain-store h a none cells absent c)
          (omega (arith, few)) in
      (
        h',
        release_round fuel h h' a n (samples cells) z e r,
        (kept a (ground arith), gone),
        λ b free. kept b (ground (arith, free)),
      )

  -- The loop, given a round for each node, meets no bad address and frees each node of the queue,
  -- with the raw buffer of its sample, once and in order; the fuel is enough.
  pub release-all :
      (q : Queue A) (cells : List (ℕ × A)) (fuel : ℕ)
      → Holds q cells
      → length cells ≤ fuel
      → (h' : ℕ → Option (Node A)) × (release fuel q.heap q.q_head ≡ some (h', samples cells))
        × Gone h' cells
        × ((a : ℕ) → q.heap a ≡ none → h' a ≡ none)
  release-all q cells fuel h few =
      let (h', r, gone, kept) = release-Chain fuel q.heap cells h.chain few in
      (h', ap (release fuel q.heap) h.head ∙ r, gone, kept)
