-- ===== src/Ws/Sha1/Blocks.antt =====
-- The loop of `sha1_update` in src/infra/websocket/ws_server.c takes a text apart into blocks of 64 bytes.
use telemetry_testbed.Base.{
  ℕ, zero, suc, ◌*◌, ◌≤◌, ◌<◌, ◌≡◌, refl, sym, ap, ◌∙◌, ltb, Bool-cases, inl, inr, List, [], ◌∷◌,
  ◌++◌, append_assoc, length, length-append, length-take, take, drop, take-append-drop, All, arith,
  true, false,
}
use telemetry_testbed.Ws.Socket.Transfer.{length-drop}
use telemetry_testbed.Ws.Sha1.{Words5, sha1_transform, whole_blocks}

-- The blocks put one behind another.
abbrev pub concat : List (List ℕ) → List ℕ
concat [] = []
concat (b ∷ bs) = b ++ concat bs

abbrev pub IsBlock : List ℕ → Type 0
IsBlock b = length b ≡ 64

-- The compression of each block in turn.
abbrev pub hash : Words5 → List (List ℕ) → Words5
hash s [] = s
hash s (b ∷ bs) = hash (sha1_transform s b) bs

pub hash-append : (s : Words5) (xs ys : List (List ℕ)) → hash s (xs ++ ys) ≡ hash (hash s xs) ys
hash-append s [] ys = refl
hash-append s (x ∷ xs) ys = hash-append (sha1_transform s x) xs ys

pub concat-append : (xs ys : List (List ℕ)) → concat (xs ++ ys) ≡ concat xs ++ concat ys
concat-append [] ys = refl
concat-append (x ∷ xs) ys =
    ap (◌++◌ x) (concat-append xs ys) ∙ sym (append_assoc x (concat xs) (concat ys))

pub length-concat : (bs : List (List ℕ)) → All IsBlock bs → length (concat bs) ≡ 64 * length bs
length-concat [] h = omega arith
length-concat (b ∷ bs) (hb, h) = omega (arith, length-append b (concat bs), hb, length-concat bs h)

-- The bytes cut into whole blocks and a rest of fewer than 64 bytes.
pub record Cut (bytes : List ℕ) : Type 0 where
  pub blocks : List (List ℕ)
  pub rest : List ℕ
  pub parts : bytes ≡ concat blocks ++ rest
  pub whole : All IsBlock blocks
  pub short : length rest < 64

pub whole_blocks-stop :
    (fuel : ℕ) (s : Words5) (bytes : List ℕ)
    → length bytes < 64
    → whole_blocks fuel s bytes ≡ (s, bytes)
unfolding whole_blocks
whole_blocks-stop zero s bytes h = refl
whole_blocks-stop (suc fuel) s bytes h =
    let e : ltb 63 (length bytes) ≡ false = ground arith in rw e refl

pub whole_blocks-go :
    (fuel : ℕ) (s : Words5) (bytes : List ℕ)
    → 64 ≤ length bytes
    → whole_blocks (suc fuel) s bytes
      ≡ whole_blocks fuel (sha1_transform s (take 64 bytes)) (drop 64 bytes)
unfolding whole_blocks
whole_blocks-go fuel s bytes h = let e : ltb 63 (length bytes) ≡ true = ground arith in rw e refl

abbrev pub uncut : (bytes : List ℕ) → length bytes < 64 → Cut bytes
uncut bytes h = record { blocks = []; rest = bytes; parts = refl; whole = tt; short = h }

-- One more block in front.
abbrev pub cut_more : (bytes : List ℕ) → 64 ≤ length bytes → Cut (drop 64 bytes) → Cut bytes
cut_more bytes h c = record {
  blocks = take 64 bytes ∷ c.blocks;
  rest = c.rest;
  parts =
      sym (take-append-drop 64 bytes)
      ∙ ap (◌++◌ (take 64 bytes)) c.parts
      ∙ sym (append_assoc (take 64 bytes) (concat c.blocks) c.rest);
  whole = (omega (arith, length-take 64 bytes), c.whole);
  short = c.short;
}

-- With as much fuel as there are bytes the loop ends by its test.
pub whole_blocks-Cut :
    (fuel : ℕ) (s : Words5) (bytes : List ℕ)
    → length bytes ≤ fuel
    → (cut : Cut bytes) × (whole_blocks fuel s bytes ≡ (hash s cut.blocks, cut.rest))
whole_blocks-Cut zero s bytes h =
    let small : length bytes < 64 = omega arith in
    (uncut bytes small, whole_blocks-stop zero s bytes small)
whole_blocks-Cut (suc fuel) s bytes h = elim (Bool-cases (ltb (length bytes) 64)) [
  | inl few ↦
      let small : length bytes < 64 = ground (arith, few) in
      (uncut bytes small, whole_blocks-stop (suc fuel) s bytes small)
  | inr many ↦
      let large : 64 ≤ length bytes = ground (arith, many) in
      let (c, e) =
        whole_blocks-Cut fuel (sha1_transform s (take 64 bytes)) (drop 64 bytes)
          (omega (arith, length-drop 64 bytes)) in
      (cut_more bytes large c, whole_blocks-go fuel s bytes large ∙ e)
]
