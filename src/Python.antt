-- ===== src/Python.antt =====
-- What the source uses of Python: integers, floats, values, text methods.
pub mod Int
pub mod Float
pub mod Value
pub mod Text
pub mod Lines
pub mod Fields
