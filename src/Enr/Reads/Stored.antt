-- ===== src/Enr/Reads/Stored.antt =====
-- What the getters of addresses, ports and sockets read, by what is stored.
use enr.Prelude.{
  ℕ, ◌≡◌, ◌↔◌, refl, sym, Option, none, some, Result, ok, err, Panics, ret, panic, arith, length,
}
use enr.Prelude.Panicking
use enr.Bytes.{Bytes, ip_key, ip6_key}
use enr.Crates.Rlp.{Rlp, DecoderError}
use enr.Enr.Defs.{Enr, SocketAddrV4, SocketAddrV6}
use enr.Enr.Getters.{get_raw_rlp, socket_v4, socket_v6, get, get_decodable, and_then_ok, sized}

module _ ⦃rlp : Rlp⦄ where
  -- Under `name` a record stores data of `size` octets.
  pub record IsAddress (size : ℕ) (name octets : Bytes) (e : Enr) : Type 0 where
    pub raw : Bytes
    pub stored : get_raw_rlp e name ≡ some raw
    pub decoded : rlp.data_of raw ≡ ok octets
    pub is_size : length octets ≡ size

  -- Under `name` a record stores a port.
  pub record IsPort (name : Bytes) (port : ℕ) (e : Enr) : Type 0 where
    pub raw : Bytes
    pub stored : get_raw_rlp e name ≡ some raw
    pub decoded : rlp.decode_u16 raw ≡ ok port

  abbrev pub read_address : ℕ → Bytes → Enr → Panics (Option Bytes)
  read_address size name e = Panicking.◌>>=◌ (get e name) (λ o. ret (sized size o))

  abbrev pub read_port : Bytes → Enr → Option ℕ
  read_port name e = and_then_ok (get_decodable rlp.decode_u16 e name)

  pub read_address_iff :
      (size : ℕ) (name octets : Bytes) (e : Enr)
      → (read_address size name e ≡ ret (some octets)) ↔ IsAddress size name octets e
  unfolding get
  read_address_iff size name octets e =
      (by_entry (get_raw_rlp e name) refl, λ a. ground (arith, a.stored, a.decoded, a.is_size))
    where
      by_data :
          (raw : Bytes)
          → get_raw_rlp e name ≡ some raw
          → (r : Result DecoderError Bytes) → rlp.data_of raw ≡ r
          → read_address size name e ≡ ret (some octets)
          → IsAddress size name octets e
      by_data raw i (ok d) j h =
          let read : d ≡ octets = ground (arith, i, j, h) in
          let is_size : length d ≡ size = ground (arith, i, j, h) in
          record {
            raw = raw;
            stored = i;
            decoded = ground (arith, j, read);
            is_size = ground (arith, is_size, read);
          }
      by_data raw i (err x) j h = absurd (ground (arith, i, j, h))

      by_entry :
          (o : Option Bytes)
          → get_raw_rlp e name ≡ o
          → read_address size name e ≡ ret (some octets)
          → IsAddress size name octets e
      by_entry none i h = absurd (ground (arith, i, h))
      by_entry (some raw) i h = by_data raw i (rlp.data_of raw) refl h

  pub read_port_iff :
      (name : Bytes) (port : ℕ) (e : Enr) → (read_port name e ≡ some port) ↔ IsPort name port e
  unfolding get_decodable
  read_port_iff name port e =
      (by_entry (get_raw_rlp e name) refl, λ a. ground (arith, a.stored, a.decoded))
    where
      by_entry :
          (o : Option Bytes)
          → get_raw_rlp e name ≡ o
          → read_port name e ≡ some port
          → IsPort name port e
      by_entry none i h = absurd (ground (arith, i, h))
      by_entry (some raw) i h = record { raw = raw; stored = i; decoded = ground (arith, i, h) }

  abbrev pub read_socket_v4 : Bytes → Enr → Panics (Option SocketAddrV4)
  read_socket_v4 port_name e =
      Panicking.◌>>=◌ (read_address 4 ip_key e) (λ ip. ret (socket_v4 ip (read_port port_name e)))

  abbrev pub read_socket_v6 : Bytes → Enr → Panics (Option SocketAddrV6)
  read_socket_v6 port_name e =
      Panicking.◌>>=◌ (read_address 16 ip6_key e) (λ ip. ret (socket_v6 ip (read_port port_name e)))

  -- The address and the port of an IPv4 socket are stored.
  abbrev pub IsSocketV4 : Bytes → Enr → SocketAddrV4 → Type 0
  IsSocketV4 port_name e s = IsAddress 4 ip_key s.ip e × IsPort port_name s.port e

  -- The address and the port of an IPv6 socket are stored; its other fields are zero.
  abbrev pub IsSocketV6 : Bytes → Enr → SocketAddrV6 → Type 0
  IsSocketV6 port_name e s =
      IsAddress 16 ip6_key s.ip e × IsPort port_name s.port e × (s.flowinfo ≡ 0) × (s.scope_id ≡ 0)

  pub read_socket_v4_iff :
      (port_name : Bytes) (e : Enr) (s : SocketAddrV4)
      → (read_socket_v4 port_name e ≡ ret (some s)) ↔ IsSocketV4 port_name e s
  read_socket_v4_iff port_name e s = (
    by_parts (read_address 4 ip_key e) refl (read_port port_name e) refl,
    λ (a, p).
        rw ((read_address_iff 4 ip_key s.ip e).1 a, (read_port_iff port_name s.port e).1 p) refl,
  )
    where
      by_parts :
          (o : Panics (Option Bytes))
          → read_address 4 ip_key e ≡ o
          → (p : Option ℕ) → read_port port_name e ≡ p
          → read_socket_v4 port_name e ≡ ret (some s)
          → IsSocketV4 port_name e s
      by_parts panic i p j h = absurd (ground (arith, i, h))
      by_parts (ret none) i p j h = absurd (ground (arith, i, h))
      by_parts (ret (some ip)) i none j h = absurd (ground (arith, i, j, h))
      by_parts (ret (some ip)) i (some port) j h =
          let same : s ≡ record { ip = ip; port = port } =
            let read : read_socket_v4 port_name e ≡ ret (some (record { ip = ip; port = port })) =
              rw (i, j) refl in
            ground (arith, read, h) in
          rw same ((read_address_iff 4 ip_key ip e).0 i, (read_port_iff port_name port e).0 j)

  pub read_socket_v6_iff :
      (port_name : Bytes) (e : Enr) (s : SocketAddrV6)
      → (read_socket_v6 port_name e ≡ ret (some s)) ↔ IsSocketV6 port_name e s
  read_socket_v6_iff port_name e s = (
    by_parts (read_address 16 ip6_key e) refl (read_port port_name e) refl,
    λ (a, p, flow, scope).
        rw ((read_address_iff 16 ip6_key s.ip e).1 a, (read_port_iff port_name s.port e).1 p)
          (λ i. ret (
            some (record {
              ip = s.ip;
              port = s.port;
              flowinfo = sym flow i;
              scope_id = sym scope i;
            }))),
  )
    where
      by_parts :
          (o : Panics (Option Bytes))
          → read_address 16 ip6_key e ≡ o
          → (p : Option ℕ) → read_port port_name e ≡ p
          → read_socket_v6 port_name e ≡ ret (some s)
          → IsSocketV6 port_name e s
      by_parts panic i p j h = absurd (ground (arith, i, h))
      by_parts (ret none) i p j h = absurd (ground (arith, i, h))
      by_parts (ret (some ip)) i none j h = absurd (ground (arith, i, j, h))
      by_parts (ret (some ip)) i (some port) j h =
          let same : s ≡ record { ip = ip; port = port; flowinfo = 0; scope_id = 0 } =
            let read : read_socket_v6 port_name e
                ≡ ret (some (record { ip = ip; port = port; flowinfo = 0; scope_id = 0 })) =
              rw (i, j) refl in
            ground (arith, read, h) in
          rw same (
            (read_address_iff 16 ip6_key ip e).0 i,
            (read_port_iff port_name port e).0 j,
            refl,
            refl,
          )
