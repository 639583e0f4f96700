-- ===== src/Ws/Session.antt =====
-- The loop of `client_thread` of src/infra/websocket/ws_server.c, behind the handshake. The database
-- is absent, or answers a `last` with what `db_reader_history_last_json` returns.
pub mod Replies
use telemetry_testbed.Base.{
  ℕ, ◌==◌, if◌then◌else◌, List, [], ◌∷◌, ◌++◌, Option, none, some, Bool, true, false, codes, length,
}
use telemetry_testbed.Base.Int.{ℤ, pos}
use telemetry_testbed.Db.History.{Reply, reply, failed}
use telemetry_testbed.Ws.Socket.{Socket, Write, Sent}
use telemetry_testbed.Ws.Frame.{Frame, ws_send_text, ws_send_control, ws_recv_frame}
use telemetry_testbed.Ws.Request.{c_string, json_find_int, is_history_request}

abbrev pub status_online : List ℕ
status_online = codes "{\"type\":\"status\",\"status\":\"online\"}"

abbrev pub db_not_available : List ℕ
db_not_available = codes "{\"type\":\"error\",\"message\":\"db_not_available\"}"

abbrev pub history_query_failed : List ℕ
history_query_failed = codes "{\"type\":\"error\",\"message\":\"history_query_failed\"}"

abbrev quiet : List Write → Sent
quiet writes = record { done = true; out = []; writes = writes }

abbrev pub send_reply : List Write → Reply → Sent
send_reply writes (reply json) = ws_send_text writes json
send_reply writes (failed n) = ws_send_text writes history_query_failed

unfoldable pub send_history : Option (ℤ → Reply) → List Write → List ℕ → Sent
send_history none writes txt = ws_send_text writes db_not_available
send_history (some db) writes txt =
    send_reply writes (db (json_find_int txt (codes "\"last\"") (pos 300)))

-- What is sent for one frame, and whether the loop goes on.
unfoldable pub respond : Option (ℤ → Reply) → List Write → Frame → Sent × Bool
respond db writes f =
    if f.opcode == 0x8
    then (ws_send_control writes 0x8 none 0, false)
    else if f.opcode == 0x9
    then (ws_send_control writes 0xA (some f.payload) (length f.payload), true)
    else if f.opcode == 0x1
    then if is_history_request (c_string f.payload)
      then (send_history db writes (c_string f.payload), true)
      else (quiet writes, true)
    else (quiet writes, true)

-- The frames' loop: `tests` are the values of `s->running && c->alive` at its head, one after
-- another. The result is all that is sent.
unfoldable pub client_loop :
    (ℕ → Bool) → Option (ℤ → Reply) → List Bool → Socket → List Write → List ℕ
client_loop alloc db [] s writes = []
client_loop alloc db (false ∷ tests) s writes = []
client_loop alloc db (true ∷ tests) s writes = elim (ws_recv_frame alloc s) [
  | none ↦ []
  | some (f, s') ↦
      let (sent, go) = respond db writes f in
      sent.out ++ (elim go [ true ↦ client_loop alloc db tests s' sent.writes | false ↦ [] ])
]

-- First the status, whose result is not looked at.
unfoldable pub client_thread :
    (ℕ → Bool) → Option (ℤ → Reply) → List Bool → Socket → List Write → List ℕ
client_thread alloc db tests s writes =
    let first = ws_send_text writes status_online in
    first.out ++ client_loop alloc db tests s first.writes
