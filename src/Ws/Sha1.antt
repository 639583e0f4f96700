-- ===== src/Ws/Sha1.antt =====
-- The SHA-1 section of src/infra/websocket/ws_server.c. A byte array is the list of its bytes, and a
-- uint32_t a number below 2 ^ 32.
pub mod Blocks
pub mod Absorb
pub mod Standard
pub mod Padding
use telemetry_testbed.Base.{
  ℕ, zero, suc, ◌+◌, ◌-◌, ◌*◌, ◌/◌, ◌%◌, ◌^◌, ltb, leb, if◌then◌else◌, List, [], ◌∷◌, ◌++◌, reverse,
  length, take, drop, get_or,
}
use Prim.Native.Nat.{bit_and, bit_or, bit_xor}

-- `uint32_t state[5]`.
pub record Words5 : Type 0 where
  pub a : ℕ
  pub b : ℕ
  pub c : ℕ
  pub d : ℕ
  pub e : ℕ

pub record Sha1Ctx : Type 0 where
  pub state : Words5
  pub count : ℕ
  pub buffer : List ℕ

abbrev add32 : ℕ → ℕ → ℕ
add32 x y = (x + y) % 2 ^ 32

-- `~x`.
abbrev not32 : ℕ → ℕ
not32 x = 2 ^ 32 - 1 - x

unfoldable pub rol32 : ℕ → ℕ → ℕ
rol32 x n = bit_or (x * 2 ^ n % 2 ^ 32) (x / 2 ^ (32 - n))

-- The first sixteen words of the schedule, the last one in front.
unfoldable pub load_words : ℕ → List ℕ → List ℕ → List ℕ
load_words zero block ws = ws
load_words (suc n) block ws =
    let byte = λ (i : ℕ). get_or block i 0 in
    let high = bit_or (byte 0 * 2 ^ 24) (byte 1 * 2 ^ 16) in
    let w = bit_or (bit_or high (byte 2 * 2 ^ 8)) (byte 3) in load_words n (drop 4 block) (w ∷ ws)

-- The words from index 16 on, the last one in front: `w[i - k]` is entry `k - 1`.
unfoldable pub extend_words : ℕ → List ℕ → List ℕ
unfolding rol32
extend_words zero ws = ws
extend_words (suc n) ws =
    let at = λ (k : ℕ). get_or ws (k - 1) 0 in
    extend_words n (rol32 (bit_xor (bit_xor (bit_xor (at 3) (at 8)) (at 14)) (at 16)) 1 ∷ ws)

abbrev choose : ℕ → Words5 → ℕ
choose i s =
    if ltb i 20
    then bit_or (bit_and s.b s.c) (bit_and (not32 s.b) s.d)
    else if ltb i 40
    then bit_xor (bit_xor s.b s.c) s.d
    else if ltb i 60
    then bit_or (bit_or (bit_and s.b s.c) (bit_and s.b s.d)) (bit_and s.c s.d)
    else bit_xor (bit_xor s.b s.c) s.d

abbrev constant : ℕ → ℕ
constant i =
    if ltb i 20
    then 0x5A827999
    else if ltb i 40
    then 0x6ED9EBA1
    else if ltb i 60
    then 0x8F1BBCDC
    else 0xCA62C1D6

-- The loop over the 80 words, from index `i` on.
unfoldable pub rounds : ℕ → List ℕ → Words5 → Words5
unfolding rol32
rounds i [] s = s
rounds i (w ∷ ws) s =
    let temp = add32 (add32 (add32 (add32 (rol32 s.a 5) (choose i s)) s.e) (constant i)) w in
    rounds (i + 1) ws (record { a = temp; b = s.a; c = rol32 s.b 30; d = s.c; e = s.d })

unfoldable pub sha1_transform : Words5 → List ℕ → Words5
unfolding load_words extend_words rounds
sha1_transform s block =
    let r = rounds 0 (reverse (extend_words 64 (load_words 16 block []))) s in
    record {
      a = add32 s.a r.a;
      b = add32 s.b r.b;
      c = add32 s.c r.c;
      d = add32 s.d r.d;
      e = add32 s.e r.e;
    }

abbrev pub initial_state : Words5
initial_state = record {
  a = 0x67452301;
  b = 0xEFCDAB89;
  c = 0x98BADCFE;
  d = 0x10325476;
  e = 0xC3D2E1F0;
}

abbrev pub zeros : ℕ → List ℕ
zeros zero = []
zeros (suc n) = 0 ∷ zeros n

unfoldable pub sha1_init : Sha1Ctx
sha1_init = record { state = initial_state; count = 0; buffer = zeros 64 }

-- `memcpy(&buffer[idx], src, n)`, with all `n` bytes of `src`.
abbrev pub copy_at : ℕ → List ℕ → List ℕ → List ℕ
copy_at idx src buffer = take idx buffer ++ (src ++ drop (idx + length src) buffer)

-- `while (i + 63 < len)`, with the bytes from `i` on; what is left of them comes back.
unfoldable pub whole_blocks : ℕ → Words5 → List ℕ → Words5 × List ℕ
whole_blocks zero s bytes = (s, bytes)
whole_blocks (suc fuel) s bytes =
    let more = whole_blocks fuel (sha1_transform s (take 64 bytes)) (drop 64 bytes) in
    if ltb 63 (length bytes) then more else (s, bytes)

unfoldable pub sha1_update : Sha1Ctx → List ℕ → Sha1Ctx
unfolding whole_blocks
sha1_update ctx bytes =
    let idx = ctx.count / 8 % 64 in
    let count = (ctx.count + length bytes * 8 % 2 ^ 64) % 2 ^ 64 in
    let part = 64 - idx in
    let filled = copy_at idx (take part bytes) ctx.buffer in
    let (state, left) =
      whole_blocks (length bytes) (sha1_transform ctx.state filled) (drop part bytes) in
    if leb part (length bytes)
    then record { state = state; count = count; buffer = copy_at 0 left filled }
    else record ctx { count = count; buffer = copy_at idx bytes ctx.buffer }

-- The `n` bytes of a number, highest first: `len_be` and the five words of `out`.
abbrev pub big_endian : ℕ → ℕ → List ℕ
big_endian zero v = []
big_endian (suc n) v = v / 256 ^ n % 256 ∷ big_endian n v

abbrev pub word_bytes : Words5 → List ℕ
word_bytes s =
    big_endian 4 s.a
    ++ (big_endian 4 s.b ++ (big_endian 4 s.c ++ (big_endian 4 s.d ++ big_endian 4 s.e)))

abbrev pub pad_len : ℕ → ℕ
pad_len idx = if ltb idx 56 then 56 - idx else 120 - idx

-- Both calls of `sha1_update`, and the output, for a padding of `n` bytes.
unfoldable pub absorb_padding : Sha1Ctx → ℕ → List ℕ
absorb_padding ctx n =
    let padded = sha1_update ctx (take n (0x80 ∷ zeros 63)) in
    word_bytes (sha1_update padded (big_endian 8 ctx.count)).state

unfoldable pub sha1_final : Sha1Ctx → List ℕ
sha1_final ctx = absorb_padding ctx (pad_len (ctx.count / 8 % 64))

-- `sha1_init`, one `sha1_update` and `sha1_final`, as `compute_accept_key` calls them.
unfoldable pub sha1 : List ℕ → List ℕ
sha1 bytes = sha1_final (sha1_update sha1_init bytes)
