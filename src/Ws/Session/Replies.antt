-- ===== src/Ws/Session/Replies.antt =====
-- What `client_thread` of src/infra/websocket/ws_server.c sends in reply to a frame.
use telemetry_testbed.Base.{
  ℕ, ◌%◌, ◌^◌, ◌<◌, ◌≤◌, ◌==◌, ◌≡◌, refl, ap, sym, ◌∙◌, subst, ◌⊎◌, inl, inr, ltb, if◌then◌else◌,
  List, [], ◌∷◌, ◌++◌, append_assoc, append-nil, Option, none, some, Bool, true, false, codes,
  length, length-take, take, min, arith, Bool-cases, ◌&&◌, not, zero, suc, leb,
}
use telemetry_testbed.Base.Int.{ℤ, pos}
use telemetry_testbed.Db.History.{Reply, reply, failed}
use telemetry_testbed.Ws.Socket.{Write, Sent, send_all}
use telemetry_testbed.Ws.Socket.Transfer.{send_all-prefix}
use telemetry_testbed.Ws.Frame.{Frame, text_header, then_send, ws_send_text, ws_send_control}
use telemetry_testbed.Ws.Frame.Wire.{rfc_frame, text_header-rfc}
use telemetry_testbed.Ws.Request.{c_string, json_find_int, is_history_request}
use telemetry_testbed.Ws.Session.{
  db_not_available, history_query_failed, send_reply, send_history, respond,
}

-- What went out is a prefix of the text, and all of it unless the sending failed.
abbrev pub Sends : Sent → List ℕ → Type 0
Sends sent text = (left : List ℕ) × (sent.out ++ left ≡ text) × ((sent.done ≡ false) ⊎ (left ≡ []))

then_send-stop :
    (first : Sent) (bs : List ℕ) (wanted : Bool)
    → (first.done && wanted) ≡ false
    → then_send wanted first bs ≡ first
unfolding then_send
then_send-stop first bs wanted e = rw e refl

then_send-next :
    (first : Sent) (bs : List ℕ) (wanted : Bool)
    → (first.done && wanted) ≡ true
    → then_send wanted first bs
      ≡ record (send_all first.writes bs) { out = first.out ++ (send_all first.writes bs).out }
unfolding then_send
then_send-next first bs wanted e = rw e refl

then_send-Sends :
    (first : Sent) (front bs : List ℕ) (wanted : Bool)
    → Sends first front
    → ((wanted ≡ true) ⊎ (bs ≡ []))
    → Sends (then_send wanted first bs) (front ++ bs)
then_send-Sends first front bs wanted (left, e, d) w = elim (Bool-cases (first.done && wanted)) [
  | inl go ↦
      let (more, e₁, d₁) = send_all-prefix first.writes bs in
      let sent = then_send-next first bs wanted go in
      let none_left : left ≡ [] = ground (arith, go, d) in
      let whole : first.out ≡ front =
        sym (append-nil first.out) ∙ ap (λ l. first.out ++ l) (sym none_left) ∙ e in
      subst (λ (x : Sent). Sends x (front ++ bs)) (sym sent)
        (more, append_assoc first.out _ more ∙ ap (◌++◌ first.out) e₁ ∙ ap (λ l. l ++ bs) whole, d₁)
  | inr stop ↦
      subst (λ (x : Sent). Sends x (front ++ bs)) (sym (then_send-stop first bs wanted stop))
        (
          left ++ bs,
          sym (append_assoc first.out left bs) ∙ ap (λ l. l ++ bs) e,
          unsent left d w stop,
        )
]
  where
    unsent :
        (left : List ℕ)
        → ((first.done ≡ false) ⊎ (left ≡ []))
        → ((wanted ≡ true) ⊎ (bs ≡ []))
        → (first.done && wanted) ≡ false
        → ((first.done ≡ false) ⊎ (left ++ bs ≡ []))
    unsent left (inl stuck) w stop = inl stuck
    unsent left (inr z) (inl t) stop = inl (ground (arith, stop, t))
    unsent left (inr z) (inr b) stop = inr (ap (λ l. l ++ bs) z ∙ b)

ws_send_text-Sends :
    (writes : List Write) (msg : List ℕ)
    → length msg < 2 ^ 64
    → Sends (ws_send_text writes msg) (rfc_frame 1 none msg)
unfolding ws_send_text
ws_send_text-Sends writes msg h = subst (Sends (ws_send_text writes msg)) (text_header-rfc msg h) (
    then_send-Sends (send_all writes (text_header (length msg))) (text_header (length msg)) msg
      (ltb 0 (length msg)) (send_all-prefix writes (text_header (length msg))) (wanted msg))
  where
    wanted : (bs : List ℕ) → ((ltb 0 (length bs) ≡ true) ⊎ (bs ≡ []))
    wanted [] = inr refl
    wanted (b ∷ bs) = inl (ground arith)

ws_send_control-close :
    (writes : List Write) → Sends (ws_send_control writes 0x8 none 0) (rfc_frame 8 none [])
unfolding ws_send_control
ws_send_control-close writes = send_all-prefix writes (136 ∷ 0 ∷ [])

take_all : (n : ℕ) (bs : List ℕ) → length bs ≤ n → take n bs ≡ bs
take_all zero [] h = refl
take_all zero (b ∷ bs) h = absurd (omega arith)
take_all (suc n) [] h = refl
take_all (suc n) (b ∷ bs) h = ap (◌∷◌ b) (take_all n bs (omega arith))

take-min : (bs : List ℕ) → take (min (length bs) 125) bs ≡ take 125 bs
take-min bs = elim (Bool-cases (leb (length bs) 125)) [
  | inl short ↦
      let small : length bs ≤ 125 = ground (arith, short) in
      let same : min (length bs) 125 ≡ length bs = omega (arith, small) in
      ap (λ n. take n bs) same ∙ take_all (length bs) bs (omega arith) ∙ sym (take_all 125 bs small)
  | inr long ↦
      let large : 125 < length bs = ground (arith, long) in
      let same : min (length bs) 125 ≡ 125 = omega (arith, large) in ap (λ n. take n bs) same
]

short_frame : (t : List ℕ) → length t < 126 → 138 ∷ length t ∷ t ≡ rfc_frame 10 none t
short_frame t h =
    let short : ltb (length t) 126 ≡ true = ground arith in
    rw short (ap (λ n. 138 ∷ n ∷ t) (omega arith))

pong_frame :
    (bs : List ℕ)
    → (138 ∷ min (length bs) 125 % 128 ∷ []) ++ take (min (length bs) 125) bs
      ≡ rfc_frame 10 none (take 125 bs)
pong_frame bs =
    let count : min (length bs) 125 % 128 ≡ length (take 125 bs) =
      omega (arith, length-take 125 bs) in
    ap (λ t. 138 ∷ min (length bs) 125 % 128 ∷ t) (take-min bs)
    ∙ ap (λ n. 138 ∷ n ∷ take 125 bs) count
    ∙ short_frame (take 125 bs) (omega (arith, length-take 125 bs))

ws_send_control-pong :
    (writes : List Write) (bs : List ℕ)
    → Sends (ws_send_control writes 0xA (some bs) (length bs)) (rfc_frame 10 none (take 125 bs))
unfolding ws_send_control
ws_send_control-pong writes bs =
    let n = min (length bs) 125 in
    let head : List ℕ = 138 ∷ n % 128 ∷ [] in
    subst (Sends (then_send (ltb 0 n) (send_all writes head) (take n bs))) (pong_frame bs) (
      then_send-Sends (send_all writes head) head (take n bs) (ltb 0 n)
        (send_all-prefix writes head) (wanted bs))
  where
    wanted :
        (t : List ℕ) → ((ltb 0 (min (length t) 125) ≡ true) ⊎ (take (min (length t) 125) t ≡ []))
    wanted [] = inr refl
    wanted (b ∷ t) = inl (ground arith)

abbrev pub reply_text : Reply → List ℕ
reply_text (reply json) = json
reply_text (failed n) = history_query_failed

-- The text of the answer to a history request.
abbrev pub history_text : Option (ℤ → Reply) → List ℕ → List ℕ
history_text none txt = db_not_available
history_text (some db) txt = reply_text (db (json_find_int txt (codes "\"last\"") (pos 300)))

send_reply-Sends :
    (writes : List Write) (r : Reply)
    → length (reply_text r) < 2 ^ 64
    → Sends (send_reply writes r) (rfc_frame 1 none (reply_text r))
send_reply-Sends writes (reply json) h = ws_send_text-Sends writes json h
send_reply-Sends writes (failed n) h = ws_send_text-Sends writes history_query_failed h

send_history-Sends :
    (db : Option (ℤ → Reply)) (writes : List Write) (txt : List ℕ)
    → length (history_text db txt) < 2 ^ 64
    → Sends (send_history db writes txt) (rfc_frame 1 none (history_text db txt))
unfolding send_history
send_history-Sends none writes txt h = ws_send_text-Sends writes db_not_available h
send_history-Sends (some db) writes txt h =
    send_reply-Sends writes (db (json_find_int txt (codes "\"last\"") (pos 300))) h

-- The frame that a frame is to be answered with, if any.
abbrev pub reply_frame : Option (ℤ → Reply) → Frame → List ℕ
reply_frame db f =
    if f.opcode == 8
    then rfc_frame 8 none []
    else if f.opcode == 9
    then rfc_frame 10 none (take 125 f.payload)
    else if (f.opcode == 1) && is_history_request (c_string f.payload)
    then rfc_frame 1 none (history_text db (c_string f.payload))
    else []

-- Let the history answer be shorter than 2 ^ 64 bytes. What the server sends for a frame is a prefix
-- of the RFC 6455 frame that answers it, and all of that unless the sending failed: a close for a
-- close, a pong with the first 125 bytes for a ping, a text frame with the history, or with an
-- error, for a text with a history request, and nothing for any other. The loop goes on unless the
-- frame is a close.
pub respond-Sends :
    (db : Option (ℤ → Reply)) (writes : List Write) (f : Frame)
    → length (history_text db (c_string f.payload)) < 2 ^ 64
    → Sends (respond db writes f).0 (reply_frame db f)
      × ((respond db writes f).1 ≡ not (f.opcode == 8))
unfolding respond
respond-Sends db writes f h = elim (Bool-cases (f.opcode == 8)) [
  | inl close ↦ (rw close (ws_send_control-close writes), rw close refl)
  | inr other ↦ elim (Bool-cases (f.opcode == 9)) [
    | inl ping ↦ (rw (other, ping) (ws_send_control-pong writes f.payload), rw (other, ping) refl)
    | inr more ↦ elim (Bool-cases (f.opcode == 1)) [
      | inr none_of_them ↦
          (rw (other, more, none_of_them) ([], refl, inr refl), rw (other, more, none_of_them) refl)
      | inl text ↦ elim (Bool-cases (is_history_request (c_string f.payload))) [
        | inl asks ↦ (
          rw (other, more, text, asks) (send_history-Sends db writes (c_string f.payload) h),
          rw (other, more, text, asks) refl,
        )
        | inr chat ↦
            (rw (other, more, text, chat) ([], refl, inr refl), rw (other, more, text, chat) refl)
      ]
    ]
  ]
]
