-- ===== src/Simulator.antt =====
-- services/simulator/simulator/: locomotives that produce readings.
pub mod Locomotive
pub mod Generators
pub mod Runner
pub mod Tests
