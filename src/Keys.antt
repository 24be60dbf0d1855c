-- ===== src/Keys.antt =====
-- src/keys: the traits, and the four implementations of them.
pub mod Traits
pub mod K256
pub mod Ed25519
pub mod RustSecp256k1
pub mod MockRng
pub mod Combined
pub mod Laws
