-- ===== src/Runs.antt =====
-- registry.py: the records of runs and the store in memory.
pub mod Records
pub mod Memory
