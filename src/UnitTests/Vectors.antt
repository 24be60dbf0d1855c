-- ===== src/UnitTests/Vectors.antt =====
-- The test vectors of src/lib.rs: texts and bytes, what is read off them, and which are refused.
pub mod Texts
pub mod Bounds
pub mod Read
pub mod Refused
pub mod Changed
