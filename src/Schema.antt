-- ===== src/Schema.antt =====
-- schema_subset.py: the subset of JSON Schema that both engines check the output of an agent with.
pub mod Nodes
pub mod Normalize
pub mod Check
