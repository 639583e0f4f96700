-- ===== src/Ws/Frame/Wire.antt =====
-- The server reads back what a peer framed by RFC 6455, and writes frames of that form.
use telemetry_testbed.Base.{
  ℕ, suc, zero, ◌+◌, ◌*◌, ◌/◌, ◌%◌, ◌^◌, ◌==◌, ◌≤◌, ◌<◌, ◌≡◌, refl, ap, sym, ◌∙◌, ltb, leb,
  if◌then◌else◌, List, [], ◌∷◌, ◌++◌, append-nil, subst, inl, inr, Bool-cases, Option, none, some,
  Bool, true, false, All, arith, length,
}
use Prim.Native.Nat.{bit_or}
use telemetry_testbed.Base.Bits.{bit_or-shift}
use telemetry_testbed.Ws.Socket.{Socket, recv_all}
use telemetry_testbed.Ws.Socket.Transfer.{Ready, recv_all-Ready}
use telemetry_testbed.Ws.Frame.Masking.{
  IsByte, rfc_mask, unmask-rfc_mask, unmask-unmask, length-unmask,
}
use telemetry_testbed.Ws.Frame.{
  ws_max_payload, text_header, unmask, be64, recv_length, recv_mask, recv_bytes, recv_payload,
  ws_recv_frame,
}

-- The `n` bytes of a number, highest first.
abbrev big_endian : ℕ → ℕ → List ℕ
big_endian zero v = []
big_endian (suc n) v = v / 256 ^ n % 256 ∷ big_endian n v

-- The length of RFC 6455 in its shortest form: a code of seven bits, and the bytes behind it.
abbrev length_code : ℕ → ℕ
length_code len = if ltb len 126 then len else if ltb len 65536 then 126 else 127

abbrev length_ext : ℕ → List ℕ
length_ext len =
    if ltb len 126 then [] else if ltb len 65536 then big_endian 2 len else big_endian 8 len

-- Both, with the mask bit in front.
abbrev pub length_field : ℕ → ℕ → List ℕ
length_field bit len = (bit * 128 + length_code len) ∷ length_ext len

-- A whole frame, masked by four bytes or not.
abbrev pub rfc_frame : ℕ → Option (List ℕ) → List ℕ → List ℕ
rfc_frame opcode none payload =
    ((128 + opcode) ∷ []) ++ (length_field 0 (length payload) ++ payload)
rfc_frame opcode (some mask) payload =
    ((128 + opcode) ∷ []) ++ (length_field 1 (length payload) ++ (mask ++ rfc_mask mask payload))

-- `ws_send_text` writes the header of an unmasked final text frame.
pub text_header-rfc :
    (msg : List ℕ) → length msg < 2 ^ 64 → text_header (length msg) ++ msg ≡ rfc_frame 1 none msg
unfolding text_header
text_header-rfc msg h = ground arith

be64_step :
    (u w : ℕ) (ext : List ℕ) → u ≡ w / 256 → w < 2 ^ 64 → be64 u (w % 256 ∷ ext) ≡ be64 w ext
unfolding be64
be64_step u w ext e h =
    let small : u * 2 ^ 8 % 2 ^ 64 ≡ u * 2 ^ 8 = omega arith in
    let sum = bit_or-shift 8 u (w % 256) (omega arith) in
    ap (λ t. be64 t ext) (ap (λ t. bit_or t (w % 256)) small ∙ sum ∙ omega arith)

be64-big_endian : (len : ℕ) → len < 2 ^ 64 → be64 0 (big_endian 8 len) ≡ len
unfolding be64
be64-big_endian len h =
    be64_step 0 (len / 256 ^ 7) (big_endian 7 len) (omega arith) (omega arith)
    ∙ be64_step (len / 256 ^ 7) (len / 256 ^ 6) (big_endian 6 len) (omega arith) (omega arith)
    ∙ be64_step (len / 256 ^ 6) (len / 256 ^ 5) (big_endian 5 len) (omega arith) (omega arith)
    ∙ be64_step (len / 256 ^ 5) (len / 256 ^ 4) (big_endian 4 len) (omega arith) (omega arith)
    ∙ be64_step (len / 256 ^ 4) (len / 256 ^ 3) (big_endian 3 len) (omega arith) (omega arith)
    ∙ be64_step (len / 256 ^ 3) (len / 256 ^ 2) (big_endian 2 len) (omega arith) (omega arith)
    ∙ be64_step (len / 256 ^ 2) (len / 256 ^ 1) (big_endian 1 len) (omega arith) (omega arith)
    ∙ be64_step (len / 256 ^ 1) (len / 256 ^ 0) (big_endian 0 len) (omega arith) (omega arith)
    ∙ omega arith

-- The three forms of the length.
data LengthForm (len : ℕ) : Type 0 where
  short : ltb len 126 ≡ true → length_ext len ≡ [] → LengthForm len
  medium :
      ltb len 126 ≡ false
      → ltb len 65536 ≡ true
      → length_ext len ≡ big_endian 2 len
      → LengthForm len
  long :
      ltb len 126 ≡ false
      → ltb len 65536 ≡ false
      → length_ext len ≡ big_endian 8 len
      → LengthForm len

length_form : (len : ℕ) → LengthForm len
length_form len = elim (Bool-cases (ltb len 126)) [
  | inl e ↦ short e (rw e)
  | inr e ↦ elim (Bool-cases (ltb len 65536)) [
    | inl m ↦ medium e m (rw (e, m))
    | inr m ↦ long e m (rw (e, m))
  ]
]

recv_length-rfc :
    (len : ℕ) (ys rest : List ℕ) (s : Socket)
    → len < 2 ^ 64
    → Ready (length_ext len ++ ys) rest s
    → (s' : Socket) × (recv_length (length_code len) s ≡ some (len, s')) × Ready ys rest s'
unfolding recv_length
recv_length-rfc len ys rest s h r = elim (length_form len) [
  | short e ext ↦ (s, ground arith, rw ext at r)
  | medium e m ext ↦
      let (s', got, r') = recv_all-Ready (big_endian 2 len) ys rest s (rw ext at r) in
      let sum = bit_or-shift 8 (len / 256 ^ 1 % 256) (len / 256 ^ 0 % 256) (omega arith) in
      (s', ground (arith, got, sum), r')
  | long e m ext ↦
      let (s', got, r') = recv_all-Ready (big_endian 8 len) ys rest s (rw ext at r) in
      (s', ground (arith, got, be64-big_endian len h), r')
]

-- What a peer sends behind the length, and what the server makes of it.
abbrev masked_part : Option (List ℕ) → List ℕ → List ℕ
masked_part none payload = payload
masked_part (some mask) payload = mask ++ rfc_mask mask payload

-- A mask is four bytes.
abbrev pub IsMask : Option (List ℕ) → Type 0
IsMask none = Unit {0}
IsMask (some mask) = (length mask ≡ 4) × All IsByte mask

abbrev is_masked : Option (List ℕ) → Bool
is_masked none = false
is_masked (some mask) = true

recv_bytes-Ready :
    (n : ℕ) (bs rest : List ℕ) (s : Socket)
    → length bs ≡ n
    → Ready bs rest s
    → (s' : Socket) × (recv_bytes n s ≡ some (bs, s')) × Ready [] rest s'
recv_bytes-Ready n [] rest s e r = (s, unfold recv_bytes in ground arith, r)
recv_bytes-Ready n (b ∷ bs) rest s e r =
    let (s', got, r') = recv_all-Ready (b ∷ bs) [] rest s (rw append-nil r) in
    (
      s',
      unfold recv_bytes in ground (arith, subst (λ n. recv_all n s ≡ some (b ∷ bs, s')) e got),
      r',
    )

recv_payload-eq :
    (alloc : ℕ → Bool) (masked : Bool) (len : ℕ) (mask bs : List ℕ) (s s' t : Socket)
    → recv_mask masked s ≡ some (mask, s')
    → alloc (len + 1) ≡ true
    → recv_bytes len s' ≡ some (bs, t)
    → recv_payload alloc masked len s ≡ some ((if masked then unmask mask 0 bs else bs), t)
unfolding recv_payload
recv_payload-eq alloc masked len mask bs s s' t m a b = ground arith

recv_payload-rfc :
    (alloc : ℕ → Bool) (mask : Option (List ℕ)) (payload rest : List ℕ) (s : Socket)
    → IsMask mask
    → All IsByte payload
    → alloc (length payload + 1) ≡ true
    → Ready (masked_part mask payload) rest s
    → (s' : Socket) × (recv_payload alloc (is_masked mask) (length payload) s ≡ some (payload, s'))
      × Ready [] rest s'
recv_payload-rfc alloc none payload rest s m hp a r =
    let (s', got, r') = recv_bytes-Ready (length payload) payload rest s refl r in
    let nothing : recv_mask false s ≡ some (0 ∷ 0 ∷ 0 ∷ 0 ∷ [], s) = unfold recv_mask in refl in
    (s', recv_payload-eq alloc false (length payload) _ payload s s s' nothing a got, r')
recv_payload-rfc alloc (some mask) payload rest s m hp a r =
    let hidden = unmask mask 0 payload in
    let same = unmask-rfc_mask mask payload m.0 in
    let (s', got, r') =
      recv_all-Ready mask hidden rest s (subst (λ h. Ready (mask ++ h) rest s) (sym same) r) in
    let (t, got', u) =
      recv_bytes-Ready (length payload) hidden rest s' (length-unmask mask 0 payload) r' in
    let first : recv_mask true s ≡ some (mask, s') =
      unfold recv_mask in subst (λ n. recv_all n s ≡ some (mask, s')) m.0 got in
    (
      t,
      recv_payload-eq alloc true (length payload) mask hidden s s' t first a got'
          ∙ ap (λ bs. some (bs, t)) (unmask-unmask mask 0 payload m.1 hp),
      u,
    )

abbrev mask_bit : Option (List ℕ) → ℕ
mask_bit none = 0
mask_bit (some mask) = 1

rfc_frame-parts :
    (opcode : ℕ) (mask : Option (List ℕ)) (payload : List ℕ)
    → rfc_frame opcode mask payload
      ≡ (128 + opcode)
        ∷ (mask_bit mask * 128 + length_code (length payload))
        ∷ (length_ext (length payload) ++ masked_part mask payload)
rfc_frame-parts opcode none payload = refl
rfc_frame-parts opcode (some mask) payload = refl

-- Each step of `ws_recv_frame` succeeds, hence the whole.
ws_recv_frame-eq :
    (alloc : ℕ → Bool) (b0 b1 len : ℕ) (payload : List ℕ) (s s₁ s₂ s₃ : Socket)
    → recv_all 2 s ≡ some (b0 ∷ b1 ∷ [], s₁)
    → recv_length (b1 % 128) s₁ ≡ some (len, s₂)
    → leb len ws_max_payload ≡ true
    → recv_payload alloc (b1 / 128 % 2 == 1) len s₂ ≡ some (payload, s₃)
    → ws_recv_frame alloc s ≡ some (record { opcode = b0 % 16; payload = payload }, s₃)
unfolding ws_recv_frame
ws_recv_frame-eq alloc b0 b1 len payload s s₁ s₂ s₃ h l fits p = ground arith

header_bits :
    (mask : Option (List ℕ)) (len : ℕ)
    → let b1 = mask_bit mask * 128 + length_code len in
      (b1 % 128 ≡ length_code len) × ((b1 / 128 % 2 == 1) ≡ is_masked mask)
header_bits none len = ground arith
header_bits (some mask) len = ground arith

-- Let a peer send an RFC 6455 frame, masked by four bytes or not, with an opcode below 16 and a
-- payload of at most 1 MiB, let the calls of `recv` deliver its bytes, in pieces of any size, and
-- let `malloc` succeed. Then `ws_recv_frame` returns the opcode and the plain payload, and the next
-- byte to be read is the one after the frame.
pub ws_recv_frame-rfc :
    (alloc : ℕ → Bool) (opcode : ℕ) (mask : Option (List ℕ)) (payload rest : List ℕ) (s : Socket)
    → opcode < 16
    → IsMask mask
    → All IsByte payload
    → length payload ≤ ws_max_payload
    → alloc (length payload + 1) ≡ true
    → Ready (rfc_frame opcode mask payload) rest s
    → (s' : Socket) × (ws_recv_frame alloc s
        ≡ some (record { opcode = opcode; payload = payload }, s'))
      × Ready [] rest s'
ws_recv_frame-rfc alloc opcode mask payload rest s ho m hp hl a r =
    let len = length payload in
    let code = mask_bit mask * 128 + length_code len in
    let (s₁, got₁, r₁) =
      recv_all-Ready ((128 + opcode) ∷ code ∷ []) (length_ext len ++ masked_part mask payload) rest
        s (subst (λ t. Ready t rest s) (rfc_frame-parts opcode mask payload) r) in
    let (s₂, got₂, r₂) = recv_length-rfc len (masked_part mask payload) rest s₁ (omega arith) r₁ in
    let (s₃, got₃, r₃) = recv_payload-rfc alloc mask payload rest s₂ m hp a r₂ in
    let (low, high) = header_bits mask len in
    let whole =
      ws_recv_frame-eq alloc (128 + opcode) code len payload s s₁ s₂ s₃ got₁
        (subst (λ c. recv_length c s₁ ≡ some (len, s₂)) (sym low) got₂) (ground arith)
        (subst (λ b. recv_payload alloc b len s₂ ≡ some (payload, s₃)) (sym high) got₃) in
    let op : (128 + opcode) % 16 ≡ opcode = omega arith in
    (s₃, whole ∙ ap (λ o. some (record { opcode = o; payload = payload }, s₃)) op, r₃)
