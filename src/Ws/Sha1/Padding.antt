-- ===== src/Ws/Sha1/Padding.antt =====
-- `sha1_update` and `sha1_final` of src/infra/websocket/ws_server.c absorb the padded message of
-- RFC 3174 block by block.
use telemetry_testbed.Base.{
  ℕ, zero, suc, ◌+◌, ◌-◌, ◌*◌, ◌/◌, ◌%◌, ◌^◌, ◌≤◌, ◌<◌, ◌≡◌, refl, ap, ◌∙◌, ltb, Bool-cases, inl,
  inr, List, [], ◌∷◌, ◌++◌, append-nil, length, length-append, take, All, arith,
}
use telemetry_testbed.Ws.Sha1.{
  Sha1Ctx, initial_state, zeros, sha1_init, sha1_update, big_endian, word_bytes, pad_len,
  absorb_padding, sha1_final, sha1,
}
use telemetry_testbed.Ws.Sha1.Blocks.{concat, IsBlock, hash, length-concat, Cut}
use telemetry_testbed.Ws.Sha1.Standard.{process_all, first_words, octets, nulls, digest}
use telemetry_testbed.Ws.Sha1.Standard.Agreement.{
  hash-process_all, first_words_lem, zeros-nulls, big_endian-octets8, word_bytes-digest,
}
use telemetry_testbed.Ws.Sha1.Absorb.{length-zeros, sha1_init-Absorbed, sha1_update-Absorbed}

-- The padding of RFC 3174, 4: a 1 bit, zeros up to 56 modulo 64, and the length in bits on 8 bytes.
pub record IsPadded (bytes message : List ℕ) : Type 0 where
  pub k : ℕ
  pub few : k < 64
  pub aligned : (length bytes + 1 + k) % 64 ≡ 56
  pub text : message ≡ (bytes ++ (0x80 ∷ nulls k)) ++ octets 8 (length bytes * 8)

take-zeros : (n m : ℕ) → n ≤ m → take n (zeros m) ≡ zeros n
take-zeros zero m h = refl
take-zeros (suc n) zero h = absurd (omega arith)
take-zeros (suc n) (suc m) h = ap (◌∷◌ 0) (take-zeros n m (omega arith))

pad_of : (k : ℕ) → k < 64 → take (suc k) (0x80 ∷ zeros 63) ≡ 0x80 ∷ zeros k
pad_of k h = ap (◌∷◌ 0x80) (take-zeros k 63 (omega arith))

sha1_final-steps :
    (ctx : Sha1Ctx) (idx k : ℕ)
    → ctx.count / 8 % 64 ≡ idx
    → pad_len idx ≡ suc k
    → sha1_final ctx
      ≡ word_bytes
          (sha1_update
            (sha1_update ctx (take (suc k) (0x80 ∷ zeros 63)))
            (big_endian 8 ctx.count)).state
unfolding sha1_final absorb_padding
sha1_final-steps ctx idx k e h = ap (absorb_padding ctx) (ap pad_len e ∙ h)

-- How many zeros stand behind the first byte of the padding.
zeros_wanted : (n : ℕ) → (k : ℕ) × (pad_len (n % 64) ≡ suc k) × (k < 64) × ((n + 1 + k) % 64 ≡ 56)
zeros_wanted n = elim (Bool-cases (ltb (n % 64) 56)) [
  | inl low ↦
      let small : n % 64 < 56 = ground (arith, low) in
      (55 - n % 64, rw low (omega arith), omega arith, omega arith)
  | inr high ↦
      let large : 56 ≤ n % 64 = ground (arith, high) in
      (119 - n % 64, rw high (omega arith), omega arith, omega arith)
]

-- Nothing is left over where the length is a multiple of 64.
all_blocks : (bytes : List ℕ) (c : Cut bytes) → length bytes % 64 ≡ 0 → bytes ≡ concat c.blocks
all_blocks bytes c h =
    let gone : c.rest ≡ [] = empty_of c.rest (
      omega (
        arith,
        ap length c.parts,
        length-append (concat c.blocks) c.rest,
        length-concat c.blocks c.whole,
        c.short,
      )) in
    c.parts ∙ ap (◌++◌ (concat c.blocks)) gone ∙ append-nil (concat c.blocks)
  where
    empty_of : (xs : List ℕ) → length xs ≡ 0 → xs ≡ []
    empty_of [] e = refl
    empty_of (x ∷ xs) e = absurd (omega arith)

-- For a message of fewer than 2 ^ 61 bytes `sha1` is what RFC 3174 says: the message with its padding
-- is cut into blocks of 64 bytes, these are processed in turn by method 1 from the words H0 to H4 on,
-- and the digest is the five words, highest byte first. The padding, the words, the functions, the
-- constants and the method are those of the RFC, written out apart from the code.
pub sha1-hash :
    (bytes : List ℕ)
    → length bytes < 2 ^ 61
    → (message : List ℕ) × (blocks : List (List ℕ)) × IsPadded bytes message
      × (message ≡ concat blocks)
      × All IsBlock blocks
      × (sha1 bytes ≡ digest (process_all first_words blocks))
unfolding sha1
sha1-hash bytes h =
    let ctx = sha1_update sha1_init bytes in
    let a₁ = sha1_update-Absorbed [] bytes sha1_init sha1_init-Absorbed in
    let (k, pad_len, few, aligned) = zeros_wanted (length bytes) in
    let pad = take (suc k) (0x80 ∷ zeros 63) in
    let bits : ctx.count ≡ length bytes * 8 = omega (arith, a₁.count) in
    let idx : ctx.count / 8 % 64 ≡ length bytes % 64 = omega (arith, bits) in
    let a₂ = sha1_update-Absorbed bytes pad ctx a₁ in
    let a₃ =
      sha1_update-Absorbed (bytes ++ pad) (big_endian 8 ctx.count) (sha1_update ctx pad) a₂ in
    let text : (bytes ++ pad) ++ big_endian 8 ctx.count
        ≡ (bytes ++ (0x80 ∷ nulls k)) ++ octets 8 (length bytes * 8) =
      ap (λ p. (bytes ++ p) ++ big_endian 8 ctx.count) (pad_of k few)
      ∙ ap (λ z. (bytes ++ (0x80 ∷ z)) ++ big_endian 8 ctx.count) (zeros-nulls k)
      ∙ ap (λ n. (bytes ++ (0x80 ∷ nulls k)) ++ big_endian 8 n) bits
      ∙ ap (◌++◌ (bytes ++ (0x80 ∷ nulls k))) (big_endian-octets8 (length bytes * 8)) in
    let size : length ((bytes ++ pad) ++ big_endian 8 ctx.count) % 64 ≡ 0 = omega (
      arith,
      length-append (bytes ++ pad) (big_endian 8 ctx.count),
      length-append bytes pad,
      ap length (pad_of k few),
      length-zeros k,
      aligned,
    ) in
    (
      (bytes ++ pad) ++ big_endian 8 ctx.count,
      a₃.cut.blocks,
      record { k = k; few = few; aligned = aligned; text = text },
      all_blocks _ a₃.cut size,
      a₃.cut.whole,
      sha1_final-steps ctx (length bytes % 64) k idx pad_len
          ∙ ap word_bytes a₃.state
          ∙ word_bytes-digest (hash initial_state a₃.cut.blocks)
          ∙ ap digest (hash-process_all initial_state a₃.cut.blocks a₃.cut.whole)
          ∙ ap (λ h. digest (process_all h a₃.cut.blocks)) first_words_lem,
    )
