-- ===== src/Examples/Wire.antt =====
-- Frames and requests of src/infra/websocket/ws_server.c.
use telemetry_testbed.Base.{
  ◌*◌, ◌/◌, map, to_lower, starts_with, not, ◌==◌, ℕ, ◌+◌, ◌≡◌, ◌≤◌, ◌<◌, refl, ◌⊎◌, List, [], ◌∷◌,
  ◌++◌, none, some, true, false, codes, arith, length,
}
use telemetry_testbed.Base.Int.{ℤ, pos, negsuc, ◌≤ℤ◌}
use telemetry_testbed.Ws.Socket.{
  Socket, gives, interrupted, wrote, again, failed, recv_all, send_all,
}
use telemetry_testbed.Ws.Socket.Transfer.{Ready, recv_all-Ready, send_all-prefix}
use telemetry_testbed.Ws.Frame.{
  ws_max_payload, Frame, text_header, unmask, recv_length, recv_payload, recv_mask, recv_bytes,
  ws_recv_frame,
}
use telemetry_testbed.Ws.Frame.Wire.{rfc_frame, ws_recv_frame-rfc, text_header-rfc}
use telemetry_testbed.Ws.Frame.Reject.{ws_recv_frame_bounds}
use telemetry_testbed.Ws.Request.{json_find_int, is_history_request}
use telemetry_testbed.Ws.Request.Number.{
  history_request, history_request-number, json_find_int_bounds,
}
use telemetry_testbed.Db.History.{Reply, reply}
use telemetry_testbed.Ws.Session.{respond}
use telemetry_testbed.Ws.Session.Replies.{Sends, reply_frame, respond-Sends}
use telemetry_testbed.Ws.Handshake.{base64_encode, icase_starts_with}
use telemetry_testbed.Ws.Handshake.Encoding.{base64_encode_bounds, icase_starts_with_lem}
use telemetry_testbed.Examples.Sample.{plenty}

abbrev hello : List ℕ
hello = rfc_frame 1 (some (1 ∷ 2 ∷ 3 ∷ 4 ∷ [])) (codes "hi")

abbrev peer : Socket
peer = record {
  incoming = hello;
  reads =
      gives 0
      ∷ gives 0
      ∷ interrupted
      ∷ gives 2
      ∷ gives 0
      ∷ gives 0
      ∷ gives 0
      ∷ gives 0
      ∷ gives 0
      ∷ [];
}

peer-Ready : Ready hello [] peer
unfolding unmask
peer-Ready = record { coming = refl; steady = refl }

ws_recv_frame-rfc_example :
    (s' : Socket) × (ws_recv_frame plenty peer
      ≡ some (record { opcode = 1; payload = codes "hi" }, s'))
    × Ready [] [] s'
ws_recv_frame-rfc_example =
    ws_recv_frame-rfc plenty 1 (some (1 ∷ 2 ∷ 3 ∷ 4 ∷ [])) (codes "hi") [] peer (omega arith)
      (refl, (omega arith, (omega arith, (omega arith, (omega arith, tt)))))
      (omega arith, (omega arith, tt)) (omega arith) refl peer-Ready

text_header-rfc_run :
    text_header (length (codes "online")) ++ codes "online" ≡ rfc_frame 1 none (codes "online")
text_header-rfc_run = text_header-rfc (codes "online") (omega arith)

abbrev ping : Socket
ping = record { incoming = 0x89 ∷ 0x00 ∷ []; reads = gives 1 ∷ [] }

abbrev ping_frame : Frame
ping_frame = record { opcode = 9; payload = [] }

ping_read : ws_recv_frame plenty ping ≡ some (ping_frame, record { incoming = []; reads = [] })
unfolding ws_recv_frame recv_all recv_length recv_payload recv_mask recv_bytes
ping_read = refl

ws_recv_frame_bounds_example :
    (ping_frame.opcode < 16)
    × (length ping_frame.payload ≤ ws_max_payload)
    × (plenty (length ping_frame.payload + 1) ≡ true)
ws_recv_frame_bounds_example =
    ws_recv_frame_bounds plenty ping (record { incoming = []; reads = [] }) ping_frame ping_read

abbrev three : Socket
three = record { incoming = 5 ∷ 6 ∷ 7 ∷ []; reads = gives 0 ∷ gives 7 ∷ gives 0 ∷ [] }

three-Ready : Ready ((5 ∷ 6 ∷ []) ++ (7 ∷ [])) [] three
three-Ready = record { coming = refl; steady = refl }

recv_all-Ready_example :
    (s' : Socket) × (recv_all 2 three ≡ some (5 ∷ 6 ∷ [], s')) × Ready (7 ∷ []) [] s'
recv_all-Ready_example = recv_all-Ready (5 ∷ 6 ∷ []) (7 ∷ []) [] three three-Ready

send_all-prefix_run :
    (left : List ℕ) × ((send_all (again ∷ wrote 1 ∷ failed ∷ []) (5 ∷ 6 ∷ 7 ∷ [])).out ++ left
      ≡ 5 ∷ 6 ∷ 7 ∷ [])
    × (((send_all (again ∷ wrote 1 ∷ failed ∷ []) (5 ∷ 6 ∷ 7 ∷ [])).done ≡ false) ⊎ (left ≡ []))
send_all-prefix_run = send_all-prefix (again ∷ wrote 1 ∷ failed ∷ []) (5 ∷ 6 ∷ 7 ∷ [])

history_request-number_example :
    (is_history_request (history_request 250) ≡ true)
    × (json_find_int (history_request 250) (codes "\"last\"") (pos 300) ≡ pos 250)
history_request-number_example = history_request-number 250 (pos 300) (omega arith)

json_find_int_bounds_example :
    (negsuc 10000008
      ≤ℤ json_find_int (codes "{\"last\": -99999999999}") (codes "\"last\"") (pos 300))
    × (json_find_int (codes "{\"last\": -99999999999}") (codes "\"last\"") (pos 300)
        ≤ℤ pos 10000009)
json_find_int_bounds_example =
    json_find_int_bounds (codes "{\"last\": -99999999999}") (codes "\"last\"") (pos 300)
      (omega arith) (omega arith)

abbrev answers : ℤ → Reply
answers last = reply (codes "{}")

respond-Sends_example :
    Sends
      (respond (some answers) (again ∷ wrote 9 ∷ []) ping_frame).0
      (reply_frame (some answers) ping_frame)
    × ((respond (some answers) (again ∷ wrote 9 ∷ []) ping_frame).1 ≡ not (ping_frame.opcode == 8))
respond-Sends_example = respond-Sends (some answers) (again ∷ wrote 9 ∷ []) ping_frame (omega arith)

padded : base64_encode (codes "Ma") 64 ≡ some (codes "TWE=")
unfolding base64_encode
padded = refl

base64_encode_bounds_run :
    ((base64_encode (codes "Ma") 64 ≡ none) × (64 ≤ 4 * ((length (codes "Ma") + 2) / 3)))
    ⊎ ((text : List ℕ) × (base64_encode (codes "Ma") 64 ≡ some text)
        × (length text ≡ 4 * ((length (codes "Ma") + 2) / 3))
        × (length text < 64))
base64_encode_bounds_run = base64_encode_bounds (codes "Ma") 64

icase_starts_with_lem_run :
    icase_starts_with (codes "sec-websocket-key: x") (codes "Sec-WebSocket-Key")
    ≡ starts_with
        (map to_lower (codes "sec-websocket-key: x"))
        (map to_lower (codes "Sec-WebSocket-Key"))
icase_starts_with_lem_run =
    icase_starts_with_lem (codes "sec-websocket-key: x") (codes "Sec-WebSocket-Key")
