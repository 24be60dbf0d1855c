-- ===== src/UnitTests/Passes/Suite.antt =====
-- The unit tests of src/lib.rs and src/node_id.rs, together.
use enr.Prelude.{◌≡◌, ok}
use enr.Bytes.{Bytes}
use enr.BtreeMap
use enr.Crates.Rlp.{Rlp}
use enr.Keys.Traits.{Entropy, EnrKey}
use enr.Keys.Laws.{KeyLaws, IsUnambiguous, IsCompact}

-- A key that signs whatever it is given, of a key type that keeps the promises of the traits, with
-- keys and signatures as short as those of the supported curves.
pub record IsSigner ⦃rlp : Rlp⦄ {K P : Type 0} (keys : EnrKey K P) (key : K) : Type 0 where
  pub compact : IsCompact keys
  pub laws : KeyLaws keys
  pub own : IsUnambiguous keys
  pub signs : (rng : Entropy) (msg : Bytes) → (sig : Bytes) × (keys.sign_v4 rng key msg ≡ ok sig)
