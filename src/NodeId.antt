-- ===== src/NodeId.antt =====
-- src/node_id.rs: the 32-byte identifier of a record.
mod Defs
pub mod Laws
unfoldable pub use Defs.{
  new, parse, random, raw, of_raw, raw_eq, node_id_eq, as_ref, digest, of_public_key, display,
  debug, serialize, strip_0x, deserialize,
}
pub use Defs.{NodeId}
