-- ===== src/Sim.antt =====
-- The state publisher of the simulator, src/sim/telemetry_state_pub.c, and the sensors' timer.
pub mod Sensors
pub mod Tick
pub mod Publisher
