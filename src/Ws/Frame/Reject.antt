-- ===== src/Ws/Frame/Reject.antt =====
-- What `ws_recv_frame` of src/infra/websocket/ws_server.c returns on any input, well formed or not.
use telemetry_testbed.Base.{
  ℕ, zero, suc, ◌+◌, ◌-◌, ◌/◌, ◌%◌, ◌==◌, ◌≤◌, ◌<◌, ◌≡◌, refl, leb, List, [], ◌∷◌, ◌++◌,
  append_assoc, some, Bool, true, min, arith, length, length-append, length-take, take, drop,
  take-append-drop, get_or, Option-cases, inl, inr,
}
use telemetry_testbed.Ws.Socket.{Read, gives, interrupted, broken, Socket, recv_loop, recv_all}
use telemetry_testbed.Ws.Frame.{
  ws_max_payload, Frame, Reader, ◌>>=◌, guard, unmask, recv_length, recv_mask, recv_bytes,
  recv_payload, ws_recv_frame,
}

-- A successful read returns as many bytes as were asked for, and takes them off the front.
recv_loop_takes :
    (reads : List Read) (n : ℕ) (incoming bs : List ℕ) (s : Socket)
    → recv_loop reads n incoming ≡ some (bs, s)
    → (length bs ≡ n) × (bs ++ s.incoming ≡ incoming)
unfolding recv_loop
recv_loop_takes reads zero incoming bs s e = ground arith
recv_loop_takes [] (suc n) incoming bs s e = cc
recv_loop_takes (interrupted ∷ reads) (suc n) incoming bs s e =
    recv_loop_takes reads (suc n) incoming bs s e
recv_loop_takes (broken ∷ reads) (suc n) incoming bs s e = cc
recv_loop_takes (gives k ∷ reads) (suc n) incoming bs s e =
    let r = min (suc k) (min (suc n) (length incoming)) in
    elim (Option-cases (recv_loop reads (suc n - r) (drop r incoming))) [
      | inl stop ↦ ground (arith, stop)
      | inr ((cs, t), more) ↦
          let (count, parts) = recv_loop_takes reads (suc n - r) (drop r incoming) cs t more in
          ground (
            arith,
            more,
            count,
            parts,
            length-append (take r incoming) cs,
            length-take r incoming,
            append_assoc (take r incoming) cs t.incoming,
            take-append-drop r incoming,
          )
    ]

length-unmask : (mask : List ℕ) (i : ℕ) (bs : List ℕ) → length (unmask mask i bs) ≡ length bs
unfolding unmask
length-unmask mask i [] = refl
length-unmask mask i (b ∷ bs) = omega (arith, length-unmask mask (i + 1) bs)

recv_bytes-length :
    (len : ℕ) (s s' : Socket) (bs : List ℕ) → recv_bytes len s ≡ some (bs, s') → length bs ≡ len
unfolding recv_bytes recv_all
recv_bytes-length len s s' bs e = ground (arith, recv_loop_takes s.reads len s.incoming bs s')

>>=-eq_some :
    {A B : Type 0} (m : Reader A) (f : A → Reader B) (s s' : Socket) (b : B)
    → (m >>= f) s ≡ some (b, s')
    → (a : A) × (t : Socket) × (m s ≡ some (a, t)) × (f a t ≡ some (b, s'))
>>=-eq_some m f s s' b e = elim (Option-cases (m s)) [
  | inl no_frame ↦ absurd (ground (arith, no_frame))
  | inr ((a, t), got) ↦ (a, t, got, ground (arith, got))
]

recv_payload-length :
    (alloc : ℕ → Bool) (masked : Bool) (len : ℕ) (s s' : Socket) (bs : List ℕ)
    → recv_payload alloc masked len s ≡ some (bs, s')
    → (length bs ≡ len) × (alloc (len + 1) ≡ true)
unfolding recv_payload
recv_payload-length alloc masked len s s' bs e =
    let (mask, t, got, e₁) = >>=-eq_some (recv_mask masked) _ s s' bs e in
    let (u, t₁, ok, e₂) = >>=-eq_some (guard (alloc (len + 1))) _ t s' bs e₁ in
    let (plain, t₂, body, e₃) = >>=-eq_some (recv_bytes len) _ t₁ s' bs e₂ in
    ground (arith, ok, e₃, recv_bytes-length len t₁ t₂ plain body, length-unmask mask 0 plain)

-- Whatever a peer sends, a frame that `ws_recv_frame` accepts has an opcode below 16 and a payload
-- of at most 1 MiB, for which `malloc` gave one byte more.
pub ws_recv_frame_bounds :
    (alloc : ℕ → Bool) (s s' : Socket) (f : Frame)
    → ws_recv_frame alloc s ≡ some (f, s')
    → (f.opcode < 16) × (length f.payload ≤ ws_max_payload) × (alloc (length f.payload + 1) ≡ true)
unfolding ws_recv_frame
ws_recv_frame_bounds alloc s s' f e =
    let (h2, t, got, e₁) = >>=-eq_some (recv_all 2) _ s s' f e in
    let (len, t₁, size, e₂) = >>=-eq_some (recv_length (get_or h2 1 0 % 128)) _ t s' f e₁ in
    let (u, t₂, fits, e₃) = >>=-eq_some (guard (leb len ws_max_payload)) _ t₁ s' f e₂ in
    let (bs, t₃, body, e₄) =
      >>=-eq_some (recv_payload alloc (get_or h2 1 0 / 128 % 2 == 1) len) _ t₂ s' f e₃ in
    ground (arith, fits, e₄, recv_payload-length alloc _ len t₂ t₃ bs body)
