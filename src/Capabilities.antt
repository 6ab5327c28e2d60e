-- ===== src/Capabilities.antt =====
-- capabilities.py: capabilities of the host that a workflow script may ask for by name.
pub mod Records
pub mod Clip
pub mod Requests
pub mod Registry
