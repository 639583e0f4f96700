-- ===== src/Ws/Http/Accept.antt =====
-- `ws_handshake` of src/infra/websocket/ws_server.c on a well-formed upgrade request, from the calls
-- of `recv` to those of `send`.
use telemetry_testbed.Ws.Socket.{Socket}
