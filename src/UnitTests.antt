-- ===== src/UnitTests.antt =====
-- Unit tests of src/lib.rs and src/node_id.rs as programs: what a test asserts, or unwraps, panics if it
-- does not hold. The key that a test generates, and the randomness of its signatures, are arguments.
pub mod Assert
pub mod Codecs
pub mod Updates
pub mod Ports
pub mod NodeIds
pub mod Vectors
pub mod Passes
