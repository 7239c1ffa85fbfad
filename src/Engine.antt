-- ===== src/Engine.antt =====
-- internal/engine: the random numbers and the simulator.
pub mod Rng
pub mod Range
pub mod Simulator
pub mod Stepping
