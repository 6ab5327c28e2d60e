-- ===== src/Loops.antt =====
-- loops.py: the bounded loop of a sensor and an actuator.
pub mod Records
pub mod Spec
pub mod World
pub mod Sensor
pub mod Action
pub mod Ownership
pub mod Authority
pub mod Round
pub mod Run
