-- ===== src/Enr/Reads/Sockets.antt =====
-- The socket getters after `set_socket`.
use enr.Prelude.{
  ℕ, ◌^◌, ◌<◌, ◌≡◌, ◌≢◌, refl, sym, ◌∙◌, Bool, true, false, some, ok, ret, arith, length,
  if◌then◌else◌,
}
use enr.Bytes.{Bytes, ip_key, tcp_key, udp_key}
use enr.BtreeMap.Laws.{IsSorted, get-insert_self, get-insert_ne}
use enr.Crates.Rlp.{Rlp, RlpLaws}
use enr.Crates.Hashing.{Keccak256}
use enr.Keys.Traits.{Entropy, EnrKey}
use enr.Keys.Laws.{KeyLaws}
use enr.Enr.Defs.{Enr, SocketAddrV4, SocketAddr, v4_socket, v6_socket}
use enr.Enr.Getters.{
  get_raw_rlp, get, get_decodable, and_then_ok, ip4, tcp4, udp4, tcp4_socket, udp4_socket,
  is_tcp_reachable, is_udp_reachable,
}
use enr.Enr.Socket.{entries, set_socket}
use enr.Enr.SocketUpdate.{set_socket-IsCommitted, entries_ne}

module _ ⦃rlp : Rlp⦄ ⦃keccak : Keccak256⦄ {K P : Type 0} (keys : EnrKey K P)
    (key_law : KeyLaws keys) where
  -- Neither key of a socket is the public key's.
  entries_free :
      (socket : SocketAddr) (is_tcp : Bool) (p : P)
      → (((entries socket is_tcp).ip_string) ≢ keys.enr_key p)
        × (((entries socket is_tcp).port_string) ≢ keys.enr_key p)
  unfolding entries
  entries_free (v4_socket s) true p =
      let f = key_law.enr_key-IsFree p in (λ i. f.ne_ip (sym i), λ i. f.ne_tcp (sym i))
  entries_free (v4_socket s) false p =
      let f = key_law.enr_key-IsFree p in (λ i. f.ne_ip (sym i), λ i. f.ne_udp (sym i))
  entries_free (v6_socket s) true p =
      let f = key_law.enr_key-IsFree p in (λ i. f.ne_ip6 (sym i), λ i. f.ne_tcp6 (sym i))
  entries_free (v6_socket s) false p =
      let f = key_law.enr_key-IsFree p in (λ i. f.ne_ip6 (sym i), λ i. f.ne_udp6 (sym i))

  -- Both entries are stored.
  entries_stored :
      (socket : SocketAddr) (k : K) (is_tcp : Bool) (rng : Entropy) (e e' : Enr)
      → IsSorted e.content
      → set_socket keys socket k is_tcp rng e ≡ ret (ok tt, e')
      → (get_raw_rlp e' (entries socket is_tcp).ip_string
          ≡ some (rlp.encode_bytes (entries socket is_tcp).octets))
        × (get_raw_rlp e' (entries socket is_tcp).port_string
            ≡ some (rlp.encode_uint (entries socket is_tcp).port))
  unfolding get_raw_rlp
  entries_stored socket k is_tcp rng e e' sorted h =
      let s = entries socket is_tcp in
      let c = set_socket-IsCommitted keys socket k is_tcp rng e e' sorted h in
      let p = keys.public k in
      let (ip_free, port_free) = entries_free socket is_tcp p in
      (
        rw c.same (
            get-insert_ne (keys.enr_key p) s.ip_string _ _ ip_free
            ∙ get-insert_ne s.port_string s.ip_string _ _ (entries_ne socket is_tcp)
            ∙ get-insert_self s.ip_string _ _),
        rw c.same (
            get-insert_ne (keys.enr_key p) s.port_string _ _ port_free
            ∙ get-insert_self s.port_string _ _),
      )

  module _ (law : RlpLaws rlp) where
    ip4_read :
        (octets : Bytes) (e : Enr)
        → length octets ≡ 4
        → get_raw_rlp e ip_key ≡ some (rlp.encode_bytes octets)
        → ip4 e ≡ ret (some octets)
    unfolding ip4 get
    ip4_read octets e size h = ground (arith, h, size, law.data_of-encode_bytes octets)

    port_read :
        (name : Bytes) (port : ℕ) (e : Enr)
        → port < 2 ^ 16
        → get_raw_rlp e name ≡ some (rlp.encode_uint port)
        → and_then_ok (get_decodable rlp.decode_u16 e name) ≡ some port
    unfolding get_decodable
    port_read name port e range h = rw (h, law.decode_u16-encode_uint port range) refl

    -- An IPv4 socket of four octets and a port of 16 bits that is set in a record whose keys ascend is
    -- what the getter of its protocol reads, and the record is reachable by that protocol. The key type
    -- keeps the promises of the traits.
    pub set_socket-socket :
        (s : SocketAddrV4) (k : K) (is_tcp : Bool) (rng : Entropy) (e e' : Enr)
        → length s.ip ≡ 4
        → s.port < 2 ^ 16
        → IsSorted e.content
        → set_socket keys (v4_socket s) k is_tcp rng e ≡ ret (ok tt, e')
        → ((if is_tcp then tcp4_socket e' else udp4_socket e') ≡ ret (some s))
          × ((if is_tcp then is_tcp_reachable e' else is_udp_reachable e') ≡ ret true)
    unfolding is_tcp_reachable is_udp_reachable tcp4_socket udp4_socket tcp4 udp4 entries
    set_socket-socket s k true rng e e' size range sorted h =
        let (ip, port) = entries_stored (v4_socket s) k true rng e e' sorted h in
        let ip = ip4_read s.ip e' size ip in
        let port = port_read tcp_key s.port e' range port in
        (rw (ip, port) refl, rw (ip, port) refl)
    set_socket-socket s k false rng e e' size range sorted h =
        let (ip, port) = entries_stored (v4_socket s) k false rng e e' sorted h in
        let ip = ip4_read s.ip e' size ip in
        let port = port_read udp_key s.port e' range port in
        (rw (ip, port) refl, rw (ip, port) refl)
