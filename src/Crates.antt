-- ===== src/Crates.antt =====
-- The third-party crates that the code calls, as interfaces: what is called, and as laws what the
-- crate's documentation promises of it.
pub mod Rlp
pub mod Hashing
pub mod Text
