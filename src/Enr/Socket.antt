-- ===== src/Enr/Socket.antt =====
-- `set_socket`: the address and the port in one update.
use enr.Prelude.{ℕ, Bool, ltb, if◌then◌else◌}
use enr.Bytes.{Bytes, ip_key, ip6_key, tcp_key, tcp6_key, udp_key, udp6_key}
use enr.Crates.Rlp.{Rlp}
use enr.Crates.Hashing.{Keccak256}
use enr.Error.{exceeds_max_size}
use enr.Keys.Traits.{Entropy, EnrKey}
use enr.Enr.Defs.{SocketAddr, v4_socket, v6_socket, max_enr_size}
use enr.Enr.Encode.{size}
use enr.Enr.Action.{Action, ◌>>=◌, raise, gets, content_insert, content_revert}
use enr.Enr.Sign.{commit}

-- The two keys that a socket is stored under, its address and its port.
pub record Entries : Type 0 where
  pub ip_string : Bytes
  pub port_string : Bytes
  pub octets : Bytes
  pub port : ℕ

unfoldable pub entries : SocketAddr → Bool → Entries
entries (v4_socket s) is_tcp = record {
  ip_string = ip_key;
  port_string = if is_tcp then tcp_key else udp_key;
  octets = s.ip;
  port = s.port;
}
entries (v6_socket s) is_tcp = record {
  ip_string = ip6_key;
  port_string = if is_tcp then tcp6_key else udp6_key;
  octets = s.ip;
  port = s.port;
}

module _ ⦃rlp : Rlp⦄ ⦃keccak : Keccak256⦄ {K P : Type 0} (keys : EnrKey K P) where
  -- What follows the choice of the keys; both arms of the two matches are alike.
  unfoldable pub set_entries : Entries → K → Entropy → Action (Unit {0})
  set_entries s key rng = do
    prev_ip ← content_insert s.ip_string (rlp.encode_bytes s.octets)
    prev_port ← content_insert s.port_string (rlp.encode_uint s.port)
    let public_key = keys.public key
    previous_key ←
        content_insert (keys.enr_key public_key) (rlp.encode_bytes (keys.encode public_key))
    oversize ← gets (λ e. ltb max_enr_size (size e))
    if oversize
        then (do
          _ ← content_revert (keys.enr_key public_key) previous_key
          _ ← content_revert s.ip_string prev_ip
          _ ← content_revert s.port_string prev_port
          raise exceeds_max_size)
        else commit keys key rng

  unfoldable pub set_socket : SocketAddr → K → Bool → Entropy → Action (Unit {0})
  unfolding set_entries entries
  set_socket socket key is_tcp rng = set_entries (entries socket is_tcp) key rng

  unfoldable pub set_udp_socket : SocketAddr → K → Entropy → Action (Unit {0})
  unfolding set_socket
  set_udp_socket socket key rng = set_socket socket key Bool.false rng

  unfoldable pub set_tcp_socket : SocketAddr → K → Entropy → Action (Unit {0})
  unfolding set_socket
  set_tcp_socket socket key rng = set_socket socket key Bool.true rng
