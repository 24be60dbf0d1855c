-- ===== src/Enr/Getters.antt =====
-- The getters of `Enr`. `get` panics on a stored value that is no RLP item (`expect`).
use enr.Prelude.{
  ℕ, Bool, true, false, Option, none, some, Result, ok, err, Panics, ret, panic, length,
  if◌then◌else◌,
}
use enr.Prelude.{◌==◌ as nat_eq}
use enr.Prelude.Fallible.{to_option}
use enr.Prelude.Panicking.{◌>>=◌}
use enr.Bytes.{
  Bytes, from_utf8_lossy, id_key, ip_key, ip6_key, tcp_key, tcp6_key, udp_key, udp6_key,
}
use enr.BtreeMap
use enr.Crates.Rlp.{Rlp, DecoderError}
use enr.NodeId.{NodeId}
use enr.Enr.Defs.{Enr, SocketAddrV4, SocketAddrV6}

unfoldable pub node_id : Enr → NodeId
node_id e = e.node_id

unfoldable pub seq : Enr → ℕ
seq e = e.seq

unfoldable pub signature : Enr → Bytes
signature e = e.signature

unfoldable pub get_raw_rlp : Enr → Bytes → Option Bytes
get_raw_rlp e key = BtreeMap.get key e.content

-- `Option::map`, `is_some`, and the `and_then(Result::ok)` of the ports
abbrev pub map_option : {A B : Type 0} → (A → B) → Option A → Option B
map_option f none = none
map_option f (some a) = some (f a)

abbrev pub is_some : {A : Type 0} → Option A → Bool
is_some none = false
is_some (some a) = true

abbrev pub and_then_ok : {E A : Type 0} → Option (Result E A) → Option A
and_then_ok none = none
and_then_ok (some r) = to_option r

-- An address of `size` octets.
abbrev pub sized : ℕ → Option Bytes → Option Bytes
sized size none = none
sized size (some b) = if nat_eq (length b) size then some b else none

module _ ⦃rlp : Rlp⦄ where
  unfoldable pub get : Enr → Bytes → Panics (Option Bytes)
  unfolding get_raw_rlp
  get e key = elim (get_raw_rlp e key) [
    | none ↦ ret none
    | some rlp_data ↦ elim (rlp.data_of rlp_data) [ ok b ↦ ret (some b) | err _ ↦ panic ]
  ]

  -- `T: Decodable` by its decoder
  unfoldable pub get_decodable :
      {T : Type 0} → (Bytes → Result DecoderError T) → Enr → Bytes → Option (Result DecoderError T)
  unfolding get_raw_rlp
  get_decodable decode e key = map_option decode (get_raw_rlp e key)

  unfoldable pub ip4 : Enr → Panics (Option Bytes)
  ip4 e = do ip_bytes ← get e ip_key; ret (sized 4 ip_bytes)

  unfoldable pub ip6 : Enr → Panics (Option Bytes)
  ip6 e = do ip_bytes ← get e ip6_key; ret (sized 16 ip_bytes)

  unfoldable pub id : Enr → Panics (Option Bytes)
  id e = do id_bytes ← get e id_key; ret (map_option from_utf8_lossy id_bytes)

  unfoldable pub tcp4 : Enr → Option ℕ
  unfolding get_decodable
  tcp4 e = and_then_ok (get_decodable rlp.decode_u16 e tcp_key)

  unfoldable pub tcp6 : Enr → Option ℕ
  unfolding get_decodable
  tcp6 e = and_then_ok (get_decodable rlp.decode_u16 e tcp6_key)

  unfoldable pub udp4 : Enr → Option ℕ
  unfolding get_decodable
  udp4 e = and_then_ok (get_decodable rlp.decode_u16 e udp_key)

  unfoldable pub udp6 : Enr → Option ℕ
  unfolding get_decodable
  udp6 e = and_then_ok (get_decodable rlp.decode_u16 e udp6_key)

  abbrev pub socket_v4 : Option Bytes → Option ℕ → Option SocketAddrV4
  socket_v4 (some ip) (some port) = some (record { ip = ip; port = port })
  socket_v4 _ _ = none

  abbrev pub socket_v6 : Option Bytes → Option ℕ → Option SocketAddrV6
  socket_v6 (some ip) (some port) =
      some (record { ip = ip; port = port; flowinfo = 0; scope_id = 0 })
  socket_v6 _ _ = none

  unfoldable pub udp4_socket : Enr → Panics (Option SocketAddrV4)
  udp4_socket e = do ip ← ip4 e; ret (socket_v4 ip (udp4 e))

  unfoldable pub udp6_socket : Enr → Panics (Option SocketAddrV6)
  udp6_socket e = do ip ← ip6 e; ret (socket_v6 ip (udp6 e))

  unfoldable pub tcp4_socket : Enr → Panics (Option SocketAddrV4)
  tcp4_socket e = do ip ← ip4 e; ret (socket_v4 ip (tcp4 e))

  unfoldable pub tcp6_socket : Enr → Panics (Option SocketAddrV6)
  tcp6_socket e = do ip ← ip6 e; ret (socket_v6 ip (tcp6 e))

  -- `||` reads its right side only if the left one is false.
  unfoldable pub is_udp_reachable : Enr → Panics Bool
  is_udp_reachable e = do
    v4 ← udp4_socket e
    if is_some v4 then ret true else (do v6 ← udp6_socket e; ret (is_some v6))

  unfoldable pub is_tcp_reachable : Enr → Panics Bool
  is_tcp_reachable e = do
    v4 ← tcp4_socket e
    if is_some v4 then ret true else (do v6 ← tcp6_socket e; ret (is_some v6))
