-- ===== src/Ws/Frame/Masking.antt =====
-- The unmasking loop of `ws_recv_frame` of src/infra/websocket/ws_server.c against RFC 6455.
use telemetry_testbed.Base.{
  ℕ, suc, zero, ◌+◌, ◌%◌, ◌<◌, ◌≡◌, refl, ap, List, [], ◌∷◌, ◌++◌, All, arith, length, get_or,
}
use Prim.Native.Nat.{bit_xor}
use telemetry_testbed.Base.Bits.{bit_xor-twice}
use telemetry_testbed.Ws.Frame.{unmask}

abbrev pub IsByte : ℕ → Type 0
IsByte b = b < 256

-- The masking of RFC 6455, 5.3: the bytes of the key in turn, each exclusive-or the next byte.
abbrev pub rfc_mask : List ℕ → List ℕ → List ℕ
rfc_mask key [] = []
rfc_mask [] (b ∷ bs) = b ∷ bs
rfc_mask (k ∷ key) (b ∷ bs) = bit_xor b k ∷ rfc_mask (key ++ (k ∷ [])) bs

unmask_round :
    (key : List ℕ) (i j r x : ℕ) (bs rest : List ℕ)
    → i % 4 ≡ r
    → i + 1 ≡ j
    → unmask key j bs ≡ rest
    → unmask key i (x ∷ bs) ≡ bit_xor x (get_or key r 0) ∷ rest
unfolding unmask
unmask_round key i j r x bs rest e next h =
    cc (ap (λ r. bit_xor x (get_or key r 0)) e, ap (λ n. unmask key n bs) next, h)

-- From an index that is a multiple of four on, and from the three that follow it.
unmask-turns :
    (a b c d : ℕ) (bs : List ℕ) (i : ℕ)
    → i % 4 ≡ 0
    → let key : List ℕ = a ∷ b ∷ c ∷ d ∷ [] in
      (unmask key i bs ≡ rfc_mask (a ∷ b ∷ c ∷ d ∷ []) bs)
      × (unmask key (i + 1) bs ≡ rfc_mask (b ∷ c ∷ d ∷ a ∷ []) bs)
      × (unmask key (i + 2) bs ≡ rfc_mask (c ∷ d ∷ a ∷ b ∷ []) bs)
      × (unmask key (i + 3) bs ≡ rfc_mask (d ∷ a ∷ b ∷ c ∷ []) bs)
unmask-turns a b c d [] i e = unfold unmask in (refl, refl, refl, refl)
unmask-turns a b c d (x ∷ bs) i e =
    let key : List ℕ = a ∷ b ∷ c ∷ d ∷ [] in
    let (_, second, third, fourth) = unmask-turns a b c d bs i e in
    let (first, _, _, _) = unmask-turns a b c d bs (i + 4) (omega arith) in
    (
      unmask_round key i (i + 1) 0 x bs _ e refl second,
      unmask_round key (i + 1) (i + 2) 1 x bs _ (omega arith) (omega arith) third,
      unmask_round key (i + 2) (i + 3) 2 x bs _ (omega arith) (omega arith) fourth,
      unmask_round key (i + 3) (i + 4) 3 x bs _ (omega arith) (omega arith) first,
    )

-- The code's index modulo four takes the bytes of a key of four in turn.
pub unmask-rfc_mask : (mask bs : List ℕ) → length mask ≡ 4 → unmask mask 0 bs ≡ rfc_mask mask bs
unmask-rfc_mask [] bs e = absurd (omega arith)
unmask-rfc_mask (a ∷ []) bs e = absurd (omega arith)
unmask-rfc_mask (a ∷ b ∷ []) bs e = absurd (omega arith)
unmask-rfc_mask (a ∷ b ∷ c ∷ []) bs e = absurd (omega arith)
unmask-rfc_mask (a ∷ b ∷ c ∷ d ∷ []) bs e = (unmask-turns a b c d bs 0 refl).0
unmask-rfc_mask (a ∷ b ∷ c ∷ d ∷ x ∷ key) bs e = absurd (omega arith)

get_or-byte : (mask : List ℕ) (i : ℕ) → All IsByte mask → get_or mask i 0 < 256
get_or-byte [] i h = omega arith
get_or-byte (m ∷ ms) zero h = h.0
get_or-byte (m ∷ ms) (suc i) h = get_or-byte ms i h.1

-- Unmasking undoes masking, which is the same function.
pub unmask-unmask :
    (mask : List ℕ) (i : ℕ) (bs : List ℕ)
    → All IsByte mask
    → All IsByte bs
    → unmask mask i (unmask mask i bs) ≡ bs
unfolding unmask
unmask-unmask mask i [] hm hb = refl
unmask-unmask mask i (b ∷ bs) hm (h, hb) = cc (
  bit_xor-twice b (get_or mask (i % 4) 0) h (get_or-byte mask (i % 4) hm),
  unmask-unmask mask (i + 1) bs hm hb,
)

pub length-unmask : (mask : List ℕ) (i : ℕ) (bs : List ℕ) → length (unmask mask i bs) ≡ length bs
unfolding unmask
length-unmask mask i [] = refl
length-unmask mask i (b ∷ bs) = ap suc (length-unmask mask (i + 1) bs)
