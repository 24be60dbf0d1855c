-- ===== src/Enr/Defs.antt =====
-- src/lib.rs: the record, the constants of the crate, and the addresses of the standard library.
use enr.Prelude.{ℕ}
use enr.Bytes.{Bytes}
use enr.NodeId.{NodeId}
use enr.Keys.Traits.{Content}

abbrev pub max_enr_size : ℕ
max_enr_size = 300

-- `struct Enr<K>`, less its `PhantomData`
pub record Enr : Type 0 where
  pub seq : ℕ
  pub node_id : NodeId
  pub content : Content
  pub signature : Bytes

-- An address is its octets, 4 or 16 of them.
pub data IpAddr : Type 0 where
  v4_addr : Bytes → IpAddr
  v6_addr : Bytes → IpAddr

pub record SocketAddrV4 : Type 0 where
  pub ip : Bytes
  pub port : ℕ

pub record SocketAddrV6 : Type 0 where
  pub ip : Bytes
  pub port : ℕ
  pub flowinfo : ℕ
  pub scope_id : ℕ

pub data SocketAddr : Type 0 where
  v4_socket : SocketAddrV4 → SocketAddr
  v6_socket : SocketAddrV6 → SocketAddr
