-- ===== src/Ws/Frame.antt =====
-- The framing section of src/infra/websocket/ws_server.c: `ws_send_text`, `ws_send_control` and
-- `ws_recv_frame`. `malloc` is the argument `alloc`: whether a request of that many bytes succeeds.
pub mod Masking
pub mod Wire
pub mod Reject
use telemetry_testbed.Base.{
  ℕ, suc, ◌+◌, ◌-◌, ◌*◌, ◌/◌, ◌%◌, ◌^◌, ◌==◌, if◌then◌else◌, ltb, leb, List, [], ◌∷◌, ◌++◌, Option,
  none, some, Bool, true, false, ◌&&◌, min, length, take, get_or,
}
use Prim.Native.Nat.{bit_or, bit_xor}
use telemetry_testbed.Ws.Socket.{Socket, recv_all, Write, Sent, send_all}

abbrev pub ws_max_payload : ℕ
ws_max_payload = 1024 * 1024

-- The header of `ws_send_text`; `size_t` is 64 bits wide.
unfoldable pub text_header : ℕ → List ℕ
text_header len =
    if leb len 125
    then 0x81 ∷ len % 2 ^ 8 ∷ []
    else if leb len 65535
    then 0x81 ∷ 126 ∷ len / 2 ^ 8 % 2 ^ 8 ∷ len % 2 ^ 8 ∷ []
    else 0x81
      ∷ 127
      ∷ len / 2 ^ 56 % 2 ^ 8
      ∷ len / 2 ^ 48 % 2 ^ 8
      ∷ len / 2 ^ 40 % 2 ^ 8
      ∷ len / 2 ^ 32 % 2 ^ 8
      ∷ len / 2 ^ 24 % 2 ^ 8
      ∷ len / 2 ^ 16 % 2 ^ 8
      ∷ len / 2 ^ 8 % 2 ^ 8
      ∷ len % 2 ^ 8
      ∷ []

-- A second buffer after the first: only if the first went out, and only if `wanted`.
unfoldable pub then_send : Bool → Sent → List ℕ → Sent
then_send wanted first bs = if first.done && wanted then next else first
  where
    rest : Sent
    rest = send_all first.writes bs

    next : Sent
    next = record rest { out = first.out ++ rest.out }

unfoldable pub ws_send_text : List Write → List ℕ → Sent
unfolding text_header then_send send_all
ws_send_text writes msg =
    then_send (ltb 0 (length msg)) (send_all writes (text_header (length msg))) msg

-- `payload` is `none` for a null pointer; its length is `len`.
unfoldable pub ws_send_control : List Write → ℕ → Option (List ℕ) → ℕ → Sent
unfolding then_send send_all
ws_send_control writes opcode payload len =
    let n = min len 125 in
    let head = send_all writes (bit_or 0x80 (opcode % 16) ∷ n % 128 ∷ []) in
    elim payload [ none ↦ head | some bs ↦ then_send (ltb 0 n) head (take n bs) ]

pub record Frame : Type 0 where
  pub opcode : ℕ
  pub payload : List ℕ

-- A read from the socket, or -1.
abbrev pub Reader : Type 0 → Type 0
Reader A = Socket → Option (A × Socket)

infixl 5 ◌>>=◌ ◌>>◌
abbrev pub ◌>>=◌ : {A B : Type 0} → Reader A → (A → Reader B) → Reader B
◌>>=◌ m f s = elim (m s) [ none ↦ none | some (a, s') ↦ f a s' ]

abbrev pub ◌>>◌ : {B : Type 0} → Reader (Unit {0}) → Reader B → Reader B
m >> k = m >>= λ _. k

abbrev pub return : {A : Type 0} → A → Reader A
return a s = some (a, s)

-- `if (!ok) return -1;`
abbrev pub guard : Bool → Reader (Unit {0})
guard true s = some (tt, s)
guard false s = none

-- `for (i = 0; i < 8; i++) len = (len << 8) | ext[i];` on uint64_t.
unfoldable pub be64 : ℕ → List ℕ → ℕ
be64 len [] = len
be64 len (b ∷ ext) = be64 (bit_or (len * 2 ^ 8 % 2 ^ 64) b) ext

-- `payload[i] ^= mask[i % 4]` from index `i` on.
unfoldable pub unmask : List ℕ → ℕ → List ℕ → List ℕ
unmask mask i [] = []
unmask mask i (b ∷ bs) = bit_xor b (get_or mask (i % 4) 0) ∷ unmask mask (i + 1) bs

-- The length: seven bits, or the two or eight bytes that follow.
unfoldable pub recv_length : ℕ → Reader ℕ
unfolding recv_all be64
recv_length len7 =
    if len7 == 126
    then (recv_all 2 >>= λ ext. return (bit_or (get_or ext 0 0 * 2 ^ 8) (get_or ext 1 0)))
    else if len7 == 127
    then (recv_all 8 >>= λ ext. return (be64 0 ext))
    else return len7

unfoldable pub recv_mask : Bool → Reader (List ℕ)
unfolding recv_all
recv_mask masked = if masked then recv_all 4 else return (0 ∷ 0 ∷ 0 ∷ 0 ∷ [])

unfoldable pub recv_bytes : ℕ → Reader (List ℕ)
unfolding recv_all
recv_bytes len = if ltb 0 len then recv_all len else return []

-- The mask and the payload, read into a buffer of one byte more than the payload, for a final NUL.
unfoldable pub recv_payload : (ℕ → Bool) → Bool → ℕ → Reader (List ℕ)
recv_payload alloc masked len = do
  mask ← recv_mask masked
  guard (alloc (len + 1))
  payload ← recv_bytes len
  return (if masked then unmask mask 0 payload else payload)

unfoldable pub ws_recv_frame : (ℕ → Bool) → Reader Frame
ws_recv_frame alloc = do
  h2 ← recv_all 2
  len ← recv_length (get_or h2 1 0 % 128)
  guard (leb len ws_max_payload)
  payload ← recv_payload alloc (get_or h2 1 0 / 128 % 2 == 1) len
  return (record { opcode = get_or h2 0 0 % 16; payload = payload })
