-- ===== src/Crates/Hashing.antt =====
-- The crate `sha3` 0.10.
use enr.Prelude.{◌≡◌, length}
use enr.Bytes.{Bytes}

-- `Keccak256::digest`
pub record Keccak256 : Type 0 where
  pub hash : Bytes → Bytes

pub record KeccakLaws (h : Keccak256) : Type 0 where
  pub length-hash : (b : Bytes) → length (h.hash b) ≡ 32
