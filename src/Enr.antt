-- ===== src/Enr.antt =====
-- src/lib.rs.
pub mod Defs
pub mod Getters
pub mod Encode
pub mod Decode
pub mod Action
pub mod Reserved
pub mod Sign
pub mod Setters
pub mod Socket
pub mod RemoveInsert
pub mod Removal
pub mod Commit
pub mod Valid
pub mod Update
pub mod Reads
pub mod Revert
pub mod Success
pub mod Room
pub mod RoundTrip
pub mod Sound
pub mod Total
pub mod Reach
pub mod Base64
pub mod Seq
pub mod SocketUpdate
pub mod Grammar
pub mod Safety
pub mod Calls
pub mod Abstract
pub mod Refines
pub mod Iter
pub mod Iteration
pub mod Format
pub mod Transport
pub mod Exchange
pub mod Outcome
pub mod Outcomes
pub mod MixedKeys
pub mod Equality
