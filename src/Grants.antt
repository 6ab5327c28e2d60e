-- ===== src/Grants.antt =====
-- grants.py: scoped, expiring grants for actuators, and the guard against raw credentials.
pub mod Credentials
pub mod Records
pub mod Checks
pub mod Codec
pub mod Requests
pub mod Resolve
pub mod Stores
pub mod Broker
pub mod Validate
