-- ===== src/Events.antt =====
-- events.py: the durable events that wake a waiting workflow.
pub mod Records
pub mod Codec
pub mod Store
