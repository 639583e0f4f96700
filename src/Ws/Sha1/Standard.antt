-- ===== src/Ws/Sha1/Standard.antt =====
-- SHA-1 as RFC 3174 writes it, section 5 and 6.1, beside the SHA-1 section of
-- src/infra/websocket/ws_server.c.
pub mod Agreement
use telemetry_testbed.Base.{
  ℕ, zero, suc, ◌+◌, ◌-◌, ◌*◌, ◌/◌, ◌%◌, ◌^◌, ltb, if◌then◌else◌, List, [], ◌∷◌, ◌++◌, reverse,
  get_or,
}
use Prim.Native.Nat.{bit_and, bit_or, bit_xor}
use telemetry_testbed.Ws.Sha1.{Words5}

-- S^n(X), the circular left shift.
abbrev pub shift_left : ℕ → ℕ → ℕ
shift_left n x = bit_or (x * 2 ^ n % 2 ^ 32) (x / 2 ^ (32 - n))

-- f(t;B,C,D).
abbrev pub f_of : ℕ → ℕ → ℕ → ℕ → ℕ
f_of t b c d =
    if ltb t 20
    then bit_or (bit_and b c) (bit_and (4294967295 - b) d)
    else if ltb t 40
    then bit_xor (bit_xor b c) d
    else if ltb t 60
    then bit_or (bit_or (bit_and b c) (bit_and b d)) (bit_and c d)
    else bit_xor (bit_xor b c) d

-- K(t).
abbrev pub k_of : ℕ → ℕ
k_of t =
    if ltb t 20
    then 0x5A827999
    else if ltb t 40
    then 0x6ED9EBA1
    else if ltb t 60
    then 0x8F1BBCDC
    else 0xCA62C1D6

-- W(0) to W(15): a block's words, the first byte of each the highest.
abbrev pub words : List ℕ → List ℕ
words (a ∷ b ∷ c ∷ d ∷ bs) =
    bit_or (bit_or (bit_or (a * 2 ^ 24) (b * 2 ^ 16)) (c * 2 ^ 8)) d ∷ words bs
words bs = []

-- W(t - k), where W(t) is the next word.
abbrev pub w_back : ℕ → List ℕ → ℕ
w_back k ws = get_or (reverse ws) (k - 1) 0

-- The next `n` words behind those that are there.
abbrev pub schedule : ℕ → List ℕ → List ℕ
schedule zero ws = ws
schedule (suc n) ws =
    let mixed =
      bit_xor (bit_xor (bit_xor (w_back 3 ws) (w_back 8 ws)) (w_back 14 ws)) (w_back 16 ws) in
    schedule n (ws ++ (shift_left 1 mixed ∷ []))

-- Step d, from t on, on A to E.
abbrev pub steps : ℕ → List ℕ → Words5 → Words5
steps t [] s = s
steps t (w ∷ ws) s =
    let temp = (shift_left 5 s.a + f_of t s.b s.c s.d + s.e + w + k_of t) % 2 ^ 32 in
    steps (t + 1) ws (record { a = temp; b = s.a; c = shift_left 30 s.b; d = s.c; e = s.d })

-- Steps a to e on a block.
abbrev pub process : Words5 → List ℕ → Words5
process h block =
    let r = steps 0 (schedule 64 (words block)) h in
    record {
      a = (h.a + r.a) % 2 ^ 32;
      b = (h.b + r.b) % 2 ^ 32;
      c = (h.c + r.c) % 2 ^ 32;
      d = (h.d + r.d) % 2 ^ 32;
      e = (h.e + r.e) % 2 ^ 32;
    }

abbrev pub process_all : Words5 → List (List ℕ) → Words5
process_all h [] = h
process_all h (block ∷ blocks) = process_all (process h block) blocks

-- H0 to H4 at the start.
abbrev pub first_words : Words5
first_words = record {
  a = 0x67452301;
  b = 0xEFCDAB89;
  c = 0x98BADCFE;
  d = 0x10325476;
  e = 0xC3D2E1F0;
}

-- The `n` bytes of a number, the lowest at the end.
abbrev pub octets : ℕ → ℕ → List ℕ
octets zero v = []
octets (suc n) v = octets n (v / 256) ++ (v % 256 ∷ [])

abbrev pub nulls : ℕ → List ℕ
nulls zero = []
nulls (suc n) = 0 ∷ nulls n

abbrev pub digest : Words5 → List ℕ
digest h = octets 4 h.a ++ (octets 4 h.b ++ (octets 4 h.c ++ (octets 4 h.d ++ octets 4 h.e)))
