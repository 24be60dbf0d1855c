-- ===== src/BtreeMap.antt =====
-- `std::collections::BTreeMap<Vec<u8>, _>`, and what holds of it.
mod Defs
pub mod Laws
pub mod Restore
pub mod Extensional
unfoldable pub use Defs.{BtreeMap, get, insert, remove, len}
