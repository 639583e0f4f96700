-- ===== src/Gateway.antt =====
-- src/app/telemetry_gateway.c: the queue between the MQTT callback and the writer thread, the two
-- threads' work, and the messages that they build.
pub mod Lifecycle
pub mod Queue
pub mod Live
pub mod Message
pub mod Writer
pub mod Pipeline
pub mod Statistics
pub mod Receive
