-- ===== src/Examples.antt =====
-- Runs of the definitions on concrete inputs, and the theorems at them.
pub mod Sample
pub mod Wire
pub mod Traffic
pub mod Pipeline
pub mod Store
pub mod Schema
pub mod Board
pub mod Handshake
pub mod Clients
pub mod Sensors
pub mod Programs
pub mod Threads
