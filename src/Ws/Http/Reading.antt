-- ===== src/Ws/Http/Reading.antt =====
-- `read_http_request` of src/infra/websocket/ws_server.c reads a request of whole lines up to the
-- empty line, however the calls of `recv` cut it up.
use telemetry_testbed.Base.{
  ℕ, zero, suc, ◌+◌, ◌-◌, ◌==◌, ◌≤◌, ◌<◌, ◌≢◌, ltb, leb, if◌then◌else◌, Bool-cases, inl, inr, List,
  [], ◌∷◌, ◌++◌, append_assoc, append-nil, none, some, true, false, ◌||◌, length, length-append,
  length-take, take, drop, take-append-drop, strstr, starts_with, All, ◌≡◌, refl, sym, ap, ◌∙◌,
  arith, min,
}
use telemetry_testbed.Ws.Socket.{Socket, Read, gives, interrupted, broken}
use telemetry_testbed.Ws.Request.{c_string}
use telemetry_testbed.Ws.Http.{
  crlf, http_max, blank_line, closes, ended, read_loop, read_http_request,
}
use telemetry_testbed.Ws.Socket.Transfer.{Delivers, Delivers-mono, length-drop}
use telemetry_testbed.Ws.Http.Lines.{IsLine, unlines, c_string-append, unlines-crlf_no_nul}

-- A part of the text that starts with a pattern makes the text start with it.
pub starts_with-append : (s t p : List ℕ) → starts_with s p ≡ true → starts_with (s ++ t) p ≡ true
unfolding starts_with
starts_with-append [] t [] h = refl
starts_with-append (c ∷ s) t [] h = refl
starts_with-append [] t (d ∷ p) h = cc
starts_with-append (c ∷ s) t (d ∷ p) h = ground (arith, starts_with-append s t p)

closes-cons : (c : ℕ) (s : List ℕ) → closes (c ∷ s) ≡ (starts_with (c ∷ s) blank_line || closes s)
unfolding strstr
closes-cons c s = elim (Bool-cases (starts_with (c ∷ s) blank_line)) [
  | inl here ↦ rw (here, strstr) refl
  | inr later ↦ rw (later, strstr) refl
]

-- What ends early ends the longer text.
closes-append : (s t : List ℕ) → closes s ≡ true → closes (s ++ t) ≡ true
closes-append [] t h = absurd (unfold strstr starts_with in cc)
closes-append (c ∷ s) t h = ground (
  arith,
  closes-cons c s,
  closes-cons c (s ++ t),
  starts_with-append (c ∷ s) t blank_line,
  closes-append s t,
)

-- The head of a request, up to the empty line that ends it.
abbrev pub head : List (List ℕ) → List ℕ
head ls = unlines ls ++ crlf

closes-line : (l rest : List ℕ) → All (λ c. c ≢ 13) l → closes (l ++ rest) ≡ closes rest
unfolding starts_with
closes-line [] rest h = refl
closes-line (c ∷ l) rest (hc, h) =
    let e : (c == 13) ≡ false = ground arith in
    closes-cons c (l ++ rest) ∙ rw e (closes-line l rest h)

-- Behind a line's end there is a byte of the next line, or nothing.
not_crlf : (ls : List (List ℕ)) → All IsLine ls → starts_with (unlines ls ++ (13 ∷ [])) crlf ≡ false
unfolding starts_with
not_crlf [] h = refl
not_crlf ([] ∷ ls) (hl, h) = absurd (omega (arith, hl.0))
not_crlf ((c ∷ l) ∷ ls) (hl, h) = let e : (c == 13) ≡ false = ground (arith, hl.1.0) in rw e refl

closes-crlf : (rest : List ℕ) → starts_with rest crlf ≡ false → closes (crlf ++ rest) ≡ closes rest
unfolding starts_with
closes-crlf rest h = closes-cons 13 (10 ∷ rest) ∙ rw h (closes-cons 10 rest)

closes-unlines : (ls : List (List ℕ)) → All IsLine ls → closes (unlines ls ++ (13 ∷ [])) ≡ false
closes-unlines [] h = unfold strstr starts_with in refl
closes-unlines (l ∷ ls) (hl, h) =
    ap closes (append_assoc l (crlf ++ unlines ls) (13 ∷ []))
    ∙ closes-line l _ hl.1
    ∙ closes-crlf (unlines ls ++ (13 ∷ [])) (not_crlf ls h)
    ∙ closes-unlines ls h

closes_later : (c : ℕ) (s : List ℕ) → closes s ≡ true → closes (c ∷ s) ≡ true
closes_later c s h = ground (arith, closes-cons c s)

-- The head ends with its last byte, and no sooner.
closes-head :
    (l : List ℕ) (ls : List (List ℕ)) → All IsLine (l ∷ ls) → closes (head (l ∷ ls)) ≡ true
closes-head l [] (h, _) =
    ap closes (append_assoc l crlf crlf)
    ∙ closes-line l (crlf ++ crlf) h.1
    ∙ unfold strstr starts_with in refl
closes-head l (m ∷ ls) (h, hs) =
    ap closes (append_assoc l (crlf ++ unlines (m ∷ ls)) crlf)
    ∙ closes-line l (crlf ++ head (m ∷ ls)) h.1
    ∙ closes_later 13 (10 ∷ head (m ∷ ls)) (closes_later 10 (head (m ∷ ls)) (closes-head m ls hs))

take_part : (k : ℕ) (s t : List ℕ) → k ≤ length s → take k (s ++ t) ++ drop k s ≡ s
take_part zero s t h = refl
take_part (suc k) [] t h = absurd (omega arith)
take_part (suc k) (c ∷ s) t h = ap (◌∷◌ c) (take_part k s t (omega arith))

closes_early :
    (ls : List (List ℕ)) (k : ℕ)
    → All IsLine ls
    → k < length (head ls)
    → closes (take k (head ls)) ≡ false
closes_early ls k h lt = elim (Bool-cases (closes (take k (head ls)))) [
  | inr open_ended ↦ open_ended
  | inl closed ↦
      let s = unlines ls ++ (13 ∷ []) in
      let same : head ls ≡ s ++ (10 ∷ []) = sym (append_assoc (unlines ls) (13 ∷ []) (10 ∷ [])) in
      let le : k ≤ length s =
        omega (arith, length-append (unlines ls) crlf, length-append (unlines ls) (13 ∷ [])) in
      let part = take_part k s (10 ∷ []) le in
      let e : closes s ≡ true =
        ap closes (sym part)
        ∙ closes-append (take k (s ++ (10 ∷ []))) (drop k s)
            (ap (λ t. closes (take k t)) (sym same) ∙ closed) in
      cc (e, closes-unlines ls h)
]

All-take : (k : ℕ) (xs : List ℕ) → All (λ c. c ≢ 0) xs → All (λ c. c ≢ 0) (take k xs)
All-take zero xs h = tt
All-take (suc k) [] h = tt
All-take (suc k) (x ∷ xs) (hx, h) = (hx, All-take k xs h)

-- On a text without NUL the search sees the whole text.
ended-closes : (xs : List ℕ) → All (λ c. c ≢ 0) xs → ended xs ≡ closes xs
unfolding ended c_string
ended-closes xs h =
    ap closes (ap c_string (sym (append-nil xs)) ∙ c_string-append xs [] h ∙ append-nil xs)

-- A request that is ended by its last byte and by no byte before.
record IsHead (req : List ℕ) : Type 0 where
  fits : length req < http_max
  complete : ended req ≡ true
  early : (k : ℕ) → k < length req → ended (take k req) ≡ false

read_loop_round :
    (k r : ℕ) (reads : List Read) (incoming buf : List ℕ)
    → r ≡ min (suc k) (min (http_max - length buf - 1) (length incoming))
    → 1 ≤ r
    → read_loop (gives k ∷ reads) incoming buf ≡ (
        if ended (buf ++ take r incoming)
        then some (buf ++ take r incoming, record { incoming = drop r incoming; reads = reads })
        else if leb (http_max - 1) (length (buf ++ take r incoming))
        then none
        else read_loop reads (drop r incoming) (buf ++ take r incoming))
unfolding read_loop
read_loop_round k r reads incoming buf e h =
    let some_bytes : (r == 0) ≡ false = ground arith in rw (sym e, some_bytes) refl

pub drop_whole : (n : ℕ) (xs : List ℕ) → length xs ≤ n → drop n xs ≡ []
drop_whole zero [] h = refl
drop_whole (suc n) [] h = refl
drop_whole zero (x ∷ xs) h = absurd (omega arith)
drop_whole (suc n) (x ∷ xs) h = drop_whole n xs (omega arith)

take_shift : (n : ℕ) (xs ys : List ℕ) → take (length xs + n) (xs ++ ys) ≡ xs ++ take n ys
take_shift n [] ys = ap (λ k. take k ys) {y = n} (omega arith)
take_shift n (x ∷ xs) ys =
    ap (λ k. take k (x ∷ (xs ++ ys))) {y = suc (length xs + n)} (omega arith)
    ∙ ap (◌∷◌ x) (take_shift n xs ys)

read_loop_last :
    (r : ℕ) (reads : List Read) (incoming buf req : List ℕ)
    → IsHead req
    → req ≡ buf ++ incoming
    → length incoming ≤ r
    → (buf ++ take r incoming ≡ req) × (drop r incoming ≡ [])
read_loop_last r reads incoming buf req h e le =
    let none_left = drop_whole r incoming le in
    let all : take r incoming ≡ incoming =
      sym (append-nil (take r incoming))
      ∙ ap (◌++◌ (take r incoming)) (sym none_left)
      ∙ take-append-drop r incoming in
    (ap (◌++◌ buf) all ∙ sym e, none_left)

read_loop_early :
    (r : ℕ) (incoming buf req : List ℕ)
    → IsHead req
    → req ≡ buf ++ incoming
    → r < length incoming
    → (ended (buf ++ take r incoming) ≡ false)
      × (leb (http_max - 1) (length (buf ++ take r incoming)) ≡ false)
read_loop_early r incoming buf req h e lt =
    let size : length req ≡ length buf + length incoming =
      ap length e ∙ length-append buf incoming in
    let part = sym (take_shift r buf incoming) ∙ ap (take (length buf + r)) (sym e) in
    let open_ended = ap ended part ∙ h.early (length buf + r) (omega (arith, size)) in
    let small : length (buf ++ take r incoming) < http_max - 1 =
      omega (arith, size, h.fits, length-append buf (take r incoming), length-take r incoming) in
    (open_ended, ground (arith, small))

read_loop-interrupted :
    (reads : List Read) (incoming buf : List ℕ)
    → read_loop (interrupted ∷ reads) incoming buf ≡ read_loop reads incoming buf
unfolding read_loop
read_loop-interrupted reads incoming buf = refl

-- However the calls of `recv` cut the request up, the loop reads it to its end.
read_loop-IsHead :
    (reads : List Read) (incoming buf req : List ℕ)
    → IsHead req
    → req ≡ buf ++ incoming
    → 0 < length incoming
    → Delivers (length incoming) reads
    → (s : Socket) × (s.incoming ≡ []) × (read_loop reads incoming buf ≡ some (req, s))
read_loop-IsHead [] incoming buf req h e more d = absurd (omega arith)
read_loop-IsHead (interrupted ∷ reads) incoming buf req h e more d =
    let (s, e₁, e₂) = read_loop-IsHead reads incoming buf req h e more d in
    (s, e₁, read_loop-interrupted reads incoming buf ∙ e₂)
read_loop-IsHead (broken ∷ reads) incoming buf req h e more d = absurd (omega arith)
read_loop-IsHead (gives k ∷ reads) incoming buf req h e more d =
    let r = min (suc k) (min (http_max - length buf - 1) (length incoming)) in
    let size : length req ≡ length buf + length incoming =
      ap length e ∙ length-append buf incoming in
    let r_pos : 1 ≤ r = omega (arith, size, h.fits) in
    let step = read_loop_round k r reads incoming buf refl r_pos in
    elim (Bool-cases (ltb r (length incoming))) [
      | inr last ↦
          let (whole, none_left) =
            read_loop_last r reads incoming buf req h e (ground (arith, last)) in
          (
            record { incoming = drop r incoming; reads = reads },
            none_left,
            step ∙ rw (whole, h.complete) refl,
          )
      | inl early ↦
          let (open_ended, small) =
            read_loop_early r incoming buf req h e (ground (arith, early)) in
          let left : length (drop r incoming) ≡ length incoming - r = length-drop r incoming in
          let (s, e₁, e₂) =
            read_loop-IsHead reads (drop r incoming) (buf ++ take r incoming) req h
              (e
                ∙ ap (◌++◌ buf) (sym (take-append-drop r incoming))
                ∙ sym (append_assoc buf (take r incoming) (drop r incoming)))
              (ground (arith, early, left))
              (Delivers-mono (length (drop r incoming)) (length incoming - 1) reads
                (omega (arith, left)) d) in
          (s, e₁, step ∙ rw (open_ended, small) e₂)
    ]

-- A request of whole lines that an empty line ends, shorter than the buffer, is read to its end if
-- the calls of `recv` deliver it.
pub read_http_request-head :
    (l : List ℕ) (ls : List (List ℕ)) (reads : List Read)
    → All IsLine (l ∷ ls)
    → length (head (l ∷ ls)) < http_max
    → Delivers (length (head (l ∷ ls))) reads
    → (s : Socket) × (s.incoming ≡ [])
      × (read_http_request (record { incoming = head (l ∷ ls); reads = reads })
          ≡ some (head (l ∷ ls), s))
unfolding read_http_request
read_http_request-head l ls reads h fits d =
    let req = head (l ∷ ls) in
    let no_nul = unlines-crlf_no_nul (l ∷ ls) h in
    let is_head : IsHead req = record {
      fits = fits;
      complete = ended-closes req no_nul ∙ closes-head l ls h;
      early =
          λ k lt. ended-closes (take k req) (All-take k req no_nul) ∙ closes_early (l ∷ ls) k h lt;
    } in
    read_loop-IsHead reads req [] req is_head refl
      (omega
        (arith, h.0.0, length-append l (crlf ++ unlines ls), length-append (unlines (l ∷ ls)) crlf))
      d
