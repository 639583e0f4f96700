-- ===== src/Ws/Sha1/Standard/Agreement.antt =====
-- Each part of the SHA-1 section of src/infra/websocket/ws_server.c is what RFC 3174 writes.
use telemetry_testbed.Base.{
  ℕ, zero, suc, ◌+◌, ◌*◌, ◌%◌, ◌^◌, ◌≡◌, refl, sym, ap, ◌∙◌, List, [], ◌∷◌, ◌++◌, reverse, length,
  All, arith,
}
use mathlib.Core.List.{reverse_aux, reverse-append, reverse-reverse}
use Prim.Native.Nat.{bit_xor}
use telemetry_testbed.Ws.Sha1.{
  Words5, initial_state, zeros, load_words, extend_words, rounds, sha1_transform, big_endian,
  word_bytes, rol32, add32,
}
use telemetry_testbed.Ws.Sha1.Blocks.{IsBlock, hash}
use telemetry_testbed.Ws.Sha1.Standard.{
  shift_left, f_of, k_of, words, w_back, schedule, steps, process, process_all, first_words, octets,
  nulls, digest,
}

load_words-words :
    (n : ℕ) (block ws : List ℕ)
    → length block ≡ 4 * n
    → load_words n block ws ≡ reverse_aux (words block) ws
unfolding load_words
load_words-words zero [] ws h = refl
load_words-words zero (a ∷ block) ws h = absurd (omega (arith, h))
load_words-words (suc n) [] ws h = absurd (omega (arith, h))
load_words-words (suc n) (a ∷ []) ws h = absurd (omega (arith, h))
load_words-words (suc n) (a ∷ b ∷ []) ws h = absurd (omega (arith, h))
load_words-words (suc n) (a ∷ b ∷ c ∷ []) ws h = absurd (omega (arith, h))
load_words-words (suc n) (a ∷ b ∷ c ∷ d ∷ block) ws h =
    load_words-words n block _ (omega (arith, h))

extend_words-schedule :
    (n : ℕ) (ws : List ℕ) → extend_words n (reverse ws) ≡ reverse (schedule n ws)
unfolding extend_words rol32
extend_words-schedule zero ws = refl
extend_words-schedule (suc n) ws =
    let mixed =
      bit_xor (bit_xor (bit_xor (w_back 3 ws) (w_back 8 ws)) (w_back 14 ws)) (w_back 16 ws) in
    let w = shift_left 1 mixed in
    ap (extend_words n) (sym (reverse-append ws (w ∷ [])))
    ∙ extend_words-schedule n (ws ++ (w ∷ []))

sum_order : (x f e k w : ℕ) → add32 (add32 (add32 (add32 x f) e) k) w ≡ (x + f + e + w + k) % 2 ^ 32
sum_order x f e k w = omega arith

rounds-steps : (t : ℕ) (ws : List ℕ) (s : Words5) → rounds t ws s ≡ steps t ws s
unfolding rounds rol32
rounds-steps t [] s = refl
rounds-steps t (w ∷ ws) s =
    ap (λ x. rounds (t + 1) ws (record { a = x; b = s.a; c = shift_left 30 s.b; d = s.c; e = s.d }))
      (sum_order (shift_left 5 s.a) (f_of t s.b s.c s.d) s.e (k_of t) w)
    ∙ rounds-steps (t + 1) ws _

schedule_lem :
    (block : List ℕ)
    → IsBlock block
    → reverse (extend_words 64 (load_words 16 block [])) ≡ schedule 64 (words block)
schedule_lem block h =
    ap (λ ws. reverse (extend_words 64 ws)) (load_words-words 16 block [] h)
    ∙ ap reverse (extend_words-schedule 64 (words block))
    ∙ reverse-reverse (schedule 64 (words block))

-- The sums at the end of a block.
abbrev add_words : Words5 → Words5 → Words5
add_words s r = record {
  a = add32 s.a r.a;
  b = add32 s.b r.b;
  c = add32 s.c r.c;
  d = add32 s.d r.d;
  e = add32 s.e r.e;
}

sha1_transform-process :
    (s : Words5) (block : List ℕ) → IsBlock block → sha1_transform s block ≡ process s block
unfolding sha1_transform
sha1_transform-process s block h =
    let same =
      ap (λ ws. rounds 0 ws s) (schedule_lem block h)
      ∙ rounds-steps 0 (schedule 64 (words block)) s in
    ap (add_words s) same

pub hash-process_all :
    (s : Words5) (blocks : List (List ℕ))
    → All IsBlock blocks
    → hash s blocks ≡ process_all s blocks
hash-process_all s [] h = refl
hash-process_all s (b ∷ bs) (hb, h) =
    ap (λ x. hash x bs) (sha1_transform-process s b hb) ∙ hash-process_all (process s b) bs h

pub first_words_lem : initial_state ≡ first_words
first_words_lem = refl

pub zeros-nulls : (n : ℕ) → zeros n ≡ nulls n
zeros-nulls zero = refl
zeros-nulls (suc n) = ap (◌∷◌ 0) (zeros-nulls n)

big_endian-octets4 : (v : ℕ) → big_endian 4 v ≡ octets 4 v
big_endian-octets4 v = ground arith

pub big_endian-octets8 : (v : ℕ) → big_endian 8 v ≡ octets 8 v
big_endian-octets8 v = ground arith

pub word_bytes-digest : (s : Words5) → word_bytes s ≡ digest s
word_bytes-digest s = cc (
  big_endian-octets4 s.a,
  big_endian-octets4 s.b,
  big_endian-octets4 s.c,
  big_endian-octets4 s.d,
  big_endian-octets4 s.e,
)
