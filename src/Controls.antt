-- ===== src/Controls.antt =====
-- controls.py: append-only operator controls, their projection and the decisions taken from it.
pub mod Records
pub mod Codec
pub mod Store
pub mod Options
pub mod Verbs
pub mod Projection
pub mod Decisions
