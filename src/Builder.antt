-- ===== src/Builder.antt =====
-- src/builder.rs.
mod Defs
pub mod Finish
pub mod Laws
pub mod Total
pub mod Fill
pub mod Mixed
pub mod Rebuild
pub mod Room
pub mod Exact
unfoldable pub use Defs.{
  default, builder, seq, add_value, add_value_rlp, ip, ip4, ip6, tcp4, tcp6, udp4, udp6,
  rlp_content, signature, add_public_key, first_invalid, finish, build, empty,
}
pub use Defs.{Builder}
