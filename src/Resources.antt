-- ===== src/Resources.antt =====
-- resources.py: what a run owns outside, and the finalizers that clean it up.
pub mod Records
pub mod Codec
pub mod Envelopes
pub mod Redact
pub mod Keys
pub mod Finalize
pub mod Registry
