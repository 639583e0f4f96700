-- ===== src/Ws.antt =====
-- src/infra/websocket/ws_server.c, a module for each section of the file.
pub mod Socket
pub mod Frame
pub mod Request
pub mod Session
pub mod Handshake
pub mod Sha1
pub mod Http
pub mod Clients
