-- ===== src/Ws/Handshake.antt =====
-- `base64_encode` and `icase_starts_with` of src/infra/websocket/ws_server.c, which the handshake
-- uses for the accept key and the header's name.
pub mod Encoding
pub mod Decoding
use telemetry_testbed.Base.{
  ℕ, suc, ◌+◌, ◌*◌, ◌/◌, ◌%◌, ◌^◌, ◌==◌, ltb, if◌then◌else◌, List, [], ◌∷◌, Option, none, some,
  Bool, true, false, ◌&&◌, codes, length, get_or, to_lower,
}
use Prim.Native.Nat.{bit_or}

abbrev pub b64_tbl : List ℕ
b64_tbl = codes "ABCDEFGHIJKLMNOPQRSTUVWXYZabcdefghijklmnopqrstuvwxyz0123456789+/"

abbrev pub sextet : ℕ → ℕ → ℕ
sextet triple shift = get_or b64_tbl (triple / 2 ^ shift % 64) 0

abbrev pub triple_of : ℕ → ℕ → ℕ → ℕ
triple_of a b c = bit_or (bit_or (a * 2 ^ 16) (b * 2 ^ 8)) c

-- The `while` loop, three bytes a round.
unfoldable pub encode_loop : List ℕ → List ℕ
encode_loop [] = []
encode_loop (a ∷ []) = let t = triple_of a 0 0 in sextet t 18 ∷ sextet t 12 ∷ b'=' ∷ b'=' ∷ []
encode_loop (a ∷ b ∷ []) =
    let t = triple_of a b 0 in sextet t 18 ∷ sextet t 12 ∷ sextet t 6 ∷ b'=' ∷ []
encode_loop (a ∷ b ∷ c ∷ bytes) =
    let t = triple_of a b c in
    sextet t 18 ∷ sextet t 12 ∷ sextet t 6 ∷ sextet t 0 ∷ encode_loop bytes

-- What stands in `out` in front of the NUL, or -1.
unfoldable pub base64_encode : List ℕ → ℕ → Option (List ℕ)
unfolding encode_loop
base64_encode bytes outcap =
    if ltb outcap (4 * ((length bytes + 2) / 3) + 1) then none else some (encode_loop bytes)

unfoldable pub icase_starts_with : List ℕ → List ℕ → Bool
unfolding to_lower
icase_starts_with s [] = true
icase_starts_with [] (p ∷ prefix) = false
icase_starts_with (c ∷ s) (p ∷ prefix) =
    let rest = icase_starts_with s prefix in if to_lower c == to_lower p then rest else false
