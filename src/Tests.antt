-- ===== src/Tests.antt =====
-- Runs of the definitions on small inputs, and the theorems at concrete inputs.
mod Samples
mod Controls
mod Grants
mod Schema
mod Events
mod Stores
mod Loops
mod Resources
mod Capabilities
mod Runs
mod Broker
