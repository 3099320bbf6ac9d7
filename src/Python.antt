-- ===== src/Python.antt =====
-- The parts of Python's data model that the program computes with.
pub mod Text
pub mod Sorted
pub mod Dict
pub mod Json
pub mod Result
pub mod Args
