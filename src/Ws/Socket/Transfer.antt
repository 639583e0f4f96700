-- ===== src/Ws/Socket/Transfer.antt =====
-- `recv_all` and `send_all` move exactly the bytes asked for, however the calls are cut up.
use telemetry_testbed.Base.{
  ℕ, zero, suc, ◌+◌, ◌-◌, ◌≤◌, ◌≡◌, refl, ap, subst, ◌∙◌, List, [], ◌∷◌, ◌++◌, append_assoc, some,
  false, ◌⊎◌, inl, inr, min, arith, length, take, drop, take-append-drop, length-append,
}
use telemetry_testbed.Ws.Socket.{
  Read, gives, interrupted, broken, Socket, recv_loop, recv_all, Write, wrote, again, failed,
  send_all,
}

-- The calls bring at least `n` bytes, if the peer sends them, before the connection breaks.
abbrev pub Delivers : ℕ → List Read → Type 0
Delivers n [] = n ≡ 0
Delivers n (interrupted ∷ r) = Delivers n r
Delivers n (broken ∷ r) = n ≡ 0
Delivers n (gives k ∷ r) = Delivers (n - 1) r

pub Delivers-mono : (m n : ℕ) (r : List Read) → m ≤ n → Delivers n r → Delivers m r
Delivers-mono m n [] h d = omega arith
Delivers-mono m n (interrupted ∷ r) h d = Delivers-mono m n r h d
Delivers-mono m n (broken ∷ r) h d = omega arith
Delivers-mono m n (gives k ∷ r) h d = Delivers-mono (m - 1) (n - 1) r (omega arith) d

take-append_le : (n : ℕ) (xs ys : List ℕ) → n ≤ length xs → take n (xs ++ ys) ≡ take n xs
take-append_le zero xs ys h = refl
take-append_le (suc n) [] ys h = absurd (omega arith)
take-append_le (suc n) (x ∷ xs) ys h = rw (take-append_le n xs ys (omega arith))

pub drop-append_le : (n : ℕ) (xs ys : List ℕ) → n ≤ length xs → drop n (xs ++ ys) ≡ drop n xs ++ ys
drop-append_le zero xs ys h = refl
drop-append_le (suc n) [] ys h = absurd (omega arith)
drop-append_le (suc n) (x ∷ xs) ys h = drop-append_le n xs ys (omega arith)

pub length-drop : (n : ℕ) (xs : List ℕ) → length (drop n xs) ≡ length xs - n
length-drop zero xs = omega arith
length-drop (suc n) [] = omega arith
length-drop (suc n) (x ∷ xs) = omega (arith, length-drop n xs)

-- The socket is ready to bring `bytes`, and then has `rest` behind them.
pub record Ready (bytes rest : List ℕ) (s : Socket) : Type 0 where
  pub coming : s.incoming ≡ bytes ++ rest
  pub steady : Delivers (length bytes) s.reads

recv_loop_round :
    (k n : ℕ) (reads : List Read) (incoming : List ℕ) (bs : List ℕ) (s : Socket)
    → let r = min (suc k) (min (suc n) (length incoming)) in
      1 ≤ r
      → recv_loop reads (suc n - r) (drop r incoming) ≡ some (bs, s)
      → recv_loop (gives k ∷ reads) (suc n) incoming ≡ some (take r incoming ++ bs, s)
unfolding recv_loop
recv_loop_round k n reads incoming bs s h e = rw e (ground arith)

recv_loop_again :
    (n : ℕ) (reads : List Read) (incoming : List ℕ)
    → recv_loop (interrupted ∷ reads) (suc n) incoming ≡ recv_loop reads (suc n) incoming
unfolding recv_loop
recv_loop_again n reads incoming = refl

recv_loop-Ready :
    (reads : List Read) (xs ys rest incoming : List ℕ) (need : ℕ)
    → incoming ≡ xs ++ (ys ++ rest)
    → length xs + length ys ≤ need
    → Delivers need reads
    → (s : Socket) × (recv_loop reads (length xs) incoming ≡ some (xs, s)) × Ready ys rest s
recv_loop-Ready reads [] ys rest incoming need e h d = (
  record { incoming = incoming; reads = reads },
  unfold recv_loop in refl,
  record { coming = e; steady = Delivers-mono (length ys) need reads (omega arith) d },
)
recv_loop-Ready [] (x ∷ xs) ys rest incoming need e h d = absurd (omega arith)
recv_loop-Ready (interrupted ∷ reads) (x ∷ xs) ys rest incoming need e h d =
    let (s, got, ready) = recv_loop-Ready reads (x ∷ xs) ys rest incoming need e h d in
    (s, recv_loop_again (length xs) reads incoming ∙ got, ready)
recv_loop-Ready (broken ∷ reads) (x ∷ xs) ys rest incoming need e h d = absurd (omega arith)
recv_loop-Ready (gives k ∷ reads) (x ∷ xs) ys rest incoming need e h d =
    let r = min (suc k) (min (suc (length xs)) (length incoming)) in
    let pos : 1 ≤ r = omega (arith, ap length e, length-append (x ∷ xs) (ys ++ rest)) in
    let small : r ≤ length (x ∷ xs) = omega arith in
    let front : take r incoming ≡ take r (x ∷ xs) =
      ap (take r) e ∙ take-append_le r (x ∷ xs) (ys ++ rest) small in
    let back : drop r incoming ≡ drop r (x ∷ xs) ++ (ys ++ rest) =
      ap (drop r) e ∙ drop-append_le r (x ∷ xs) (ys ++ rest) small in
    let left : length (drop r (x ∷ xs)) ≡ suc (length xs) - r = length-drop r (x ∷ xs) in
    let (s, got, ready) =
      recv_loop-Ready reads (drop r (x ∷ xs)) ys rest (drop r incoming) (need - 1) back
        (omega (arith, left)) d in
    let round =
      recv_loop_round k (length xs) reads incoming (drop r (x ∷ xs)) s pos
        (subst (λ t. recv_loop reads t (drop r incoming) ≡ some (drop r (x ∷ xs), s)) left got) in
    let whole : take r incoming ++ drop r (x ∷ xs) ≡ x ∷ xs =
      ap (λ t. t ++ drop r (x ∷ xs)) front ∙ take-append-drop r (x ∷ xs) in
    (s, round ∙ ap (λ t. some (t, s)) whole, ready)

-- Where the peer's next bytes are `xs` and `ys` and the calls deliver them, `recv_all` of as many
-- bytes as `xs` has ends and returns `xs`, however the calls cut them up, and `ys` come next.
pub recv_all-Ready :
    (xs ys rest : List ℕ) (s : Socket)
    → Ready (xs ++ ys) rest s
    → (s' : Socket) × (recv_all (length xs) s ≡ some (xs, s')) × Ready ys rest s'
unfolding recv_all
recv_all-Ready xs ys rest s r =
    recv_loop-Ready s.reads xs ys rest s.incoming (length (xs ++ ys))
      (r.coming ∙ append_assoc xs ys rest) (omega (arith, length-append xs ys)) r.steady

-- What `send_all` puts out is a prefix of the buffer, and the whole buffer if it returns 0.
pub send_all-prefix :
    (writes : List Write) (bs : List ℕ)
    → (left : List ℕ) × ((send_all writes bs).out ++ left ≡ bs)
      × (((send_all writes bs).done ≡ false) ⊎ (left ≡ []))
unfolding send_all
send_all-prefix writes [] = ([], refl, inr refl)
send_all-prefix [] (b ∷ bs) = (b ∷ bs, refl, inl refl)
send_all-prefix (again ∷ writes) (b ∷ bs) = send_all-prefix writes (b ∷ bs)
send_all-prefix (failed ∷ writes) (b ∷ bs) = (b ∷ bs, refl, inl refl)
send_all-prefix (wrote zero ∷ writes) (b ∷ bs) = (b ∷ bs, refl, inl refl)
send_all-prefix (wrote (suc k) ∷ writes) (b ∷ bs) =
    let (left, e, d) = send_all-prefix writes (drop (suc k) (b ∷ bs)) in
    (
      left,
      append_assoc (take (suc k) (b ∷ bs)) _ left
          ∙ ap (◌++◌ (take (suc k) (b ∷ bs))) e
          ∙ take-append-drop (suc k) (b ∷ bs),
      d,
    )
