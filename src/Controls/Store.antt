-- ===== src/Controls/Store.antt =====
-- The control stores of controls.py behind one interface, `ControlStore`.
pub mod Interface
pub mod Buckets
pub mod Memory
pub mod File
