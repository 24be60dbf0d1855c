-- ===== src/Enr/Reads/Reachable.antt =====
-- Sockets and reachability, by what a record stores.
use enr.Prelude.{
  ◌≡◌, ◌↔◌, refl, true, ◌⊎◌, inl, inr, Option, none, some, Panics, ret, panic, arith, ret, Bool,
  if◌then◌else◌,
}
use enr.Prelude.Panicking
use enr.Bytes.{Bytes, ip_key, tcp_key, tcp6_key, udp_key, udp6_key}
use enr.Crates.Rlp.{Rlp, RlpLaws}
use enr.Enr.Defs.{Enr, SocketAddrV4, SocketAddrV6}
use enr.Enr.Getters.{
  is_some, ip4, ip6, tcp4, tcp6, udp4, udp6, udp4_socket, udp6_socket, tcp4_socket, tcp6_socket,
  is_udp_reachable, is_tcp_reachable,
}
use enr.Enr.Valid.{IsSound, get_total}
use enr.Enr.Total.{Returns, >>=-Returns}
use enr.Enr.Reads.Stored.{
  IsSocketV4, IsSocketV6, read_socket_v4, read_socket_v6, read_socket_v4_iff, read_socket_v6_iff,
}

-- One of two sockets is there: the second is read only if the first is not.
abbrev either : {A B : Type 0} → Panics (Option A) → Panics (Option B) → Panics Bool
either a b =
    Panicking.◌>>=◌ a
      (λ v4. if is_some v4 then ret true else Panicking.◌>>=◌ b (λ v6. ret (is_some v6)))

either_iff :
    {A B : Type 0} (a : Panics (Option A)) (b : Panics (Option B))
    → Returns a
    → (either a b ≡ ret true) ↔ ((s : A) × (a ≡ ret (some s))) ⊎ ((s : B) × (b ≡ ret (some s)))
either_iff {A} {B} a b (o, returned) = rw returned (forth o b, back o b)
  where
    forth :
        (o : Option A) (b : Panics (Option B))
        → either (ret o) b ≡ ret true
        → ((s : A) × (ret o ≡ ret (some s))) ⊎ ((s : B) × (b ≡ ret (some s)))
    forth (some s) b h = inl (s, refl)
    forth none panic h = absurd (ground (arith, h))
    forth none (ret none) h = absurd (ground (arith, h))
    forth none (ret (some s)) h = inr (s, refl)

    back :
        (o : Option A) (b : Panics (Option B))
        → ((s : A) × (ret o ≡ ret (some s))) ⊎ ((s : B) × (b ≡ ret (some s)))
        → either (ret o) b ≡ ret true
    back (some s) b h = refl
    back none b (inl (s, h)) = absurd (ground (arith, h))
    back none b (inr (s, h)) = rw h refl

module _ ⦃rlp : Rlp⦄ where
  -- Each socket getter returns a socket exactly if the record stores its address, with as many octets
  -- as its protocol has, and its port.
  pub sockets_iff :
      (e : Enr) (s : SocketAddrV4) (t : SocketAddrV6)
      → ((udp4_socket e ≡ ret (some s)) ↔ IsSocketV4 udp_key e s)
        × ((tcp4_socket e ≡ ret (some s)) ↔ IsSocketV4 tcp_key e s)
        × ((udp6_socket e ≡ ret (some t)) ↔ IsSocketV6 udp6_key e t)
        × ((tcp6_socket e ≡ ret (some t)) ↔ IsSocketV6 tcp6_key e t)
  unfolding udp4_socket udp6_socket tcp4_socket tcp6_socket ip4 ip6 tcp4 tcp6 udp4 udp6
  sockets_iff e s t = (
    read_socket_v4_iff udp_key e s,
    read_socket_v4_iff tcp_key e s,
    read_socket_v6_iff udp6_key e t,
    read_socket_v6_iff tcp6_key e t,
  )

  -- The record stores an IPv4 or an IPv6 socket.
  abbrev pub HasSocket : Bytes → Bytes → Enr → Type 0
  HasSocket port_name port6_name e =
      ((s : SocketAddrV4) × IsSocketV4 port_name e s)
      ⊎ ((s : SocketAddrV6) × IsSocketV6 port6_name e s)

  socket_stored :
      (law : RlpLaws rlp) (port_name port6_name : Bytes) (e : Enr)
      → IsSound e.content
      → (either (read_socket_v4 port_name e) (read_socket_v6 port6_name e) ≡ ret true)
        ↔ HasSocket port_name port6_name e
  socket_stored law port_name port6_name e sound =
      let returns =
        >>=-Returns _ _ (>>=-Returns _ _ (get_total law e ip_key sound) (λ o. (_, refl)))
          (λ o. (_, refl)) in
      let parts = either_iff (read_socket_v4 port_name e) (read_socket_v6 port6_name e) returns in
      (λ h. named (parts.0 h), λ h. parts.1 (read h))
    where
      named :
          ((s : SocketAddrV4) × (read_socket_v4 port_name e ≡ ret (some s)))
            ⊎ ((s : SocketAddrV6) × (read_socket_v6 port6_name e ≡ ret (some s)))
          → HasSocket port_name port6_name e
      named (inl (s, h)) = inl (s, (read_socket_v4_iff port_name e s).0 h)
      named (inr (s, h)) = inr (s, (read_socket_v6_iff port6_name e s).0 h)

      read :
          HasSocket port_name port6_name e
          → ((s : SocketAddrV4) × (read_socket_v4 port_name e ≡ ret (some s)))
            ⊎ ((s : SocketAddrV6) × (read_socket_v6 port6_name e ≡ ret (some s)))
      read (inl (s, h)) = inl (s, (read_socket_v4_iff port_name e s).1 h)
      read (inr (s, h)) = inr (s, (read_socket_v6_iff port6_name e s).1 h)

  -- A record with sound content is reachable by UDP, and by TCP, exactly if it stores an IPv4 address
  -- of four octets with the protocol's port, or an IPv6 address of sixteen with its IPv6 port.
  pub reachable_iff :
      (law : RlpLaws rlp) (e : Enr)
      → IsSound e.content
      → ((is_udp_reachable e ≡ ret true) ↔ HasSocket udp_key udp6_key e)
        × ((is_tcp_reachable e ≡ ret true) ↔ HasSocket tcp_key tcp6_key e)
  unfolding is_udp_reachable is_tcp_reachable udp4_socket udp6_socket tcp4_socket tcp6_socket ip4
      ip6 tcp4 tcp6 udp4 udp6
  reachable_iff law e sound =
      (socket_stored law udp_key udp6_key e sound, socket_stored law tcp_key tcp6_key e sound)
