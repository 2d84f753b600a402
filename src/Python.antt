-- ===== src/Python.antt =====
-- What the source uses of Python's own values: text, JSON values and moments.
pub mod Text
pub mod Words
pub mod Json
pub mod Sorted
