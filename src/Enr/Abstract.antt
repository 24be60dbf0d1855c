-- ===== src/Enr/Abstract.antt =====
-- What a record is to its readers, the sequence number and a value for each key, and what the
-- updates of src/lib.rs promise to do to it.
use enr.Prelude.{ℕ, ◌+◌, List, [], ◌∷◌, Option, none, some, if◌then◌else◌, Bool}
use enr.Bytes.{Bytes, ◌==◌, ip_key, ip6_key, tcp_key, tcp6_key, udp_key, udp6_key}
use enr.Crates.Rlp.{Rlp}
use enr.Keys.Traits.{Entropy, EnrKey}
use enr.Enr.Defs.{Enr, v4_addr, v6_addr}
use enr.Enr.Getters.{get_raw_rlp}
use enr.Enr.Socket.{Entries, entries}
use enr.Enr.Calls.{
  Call, insert_raw_rlp, insert, set_ip, set_udp4, set_udp6, set_tcp4, set_tcp6, set_public_key,
  set_udp_socket, set_tcp_socket, remove_insert, set_seq,
}

pub record View : Type 0 where
  pub seq : ℕ
  pub read : Bytes → Option Bytes

unfoldable pub view : Enr → View
view e = record { seq = e.seq; read = get_raw_rlp e }

abbrev pub write : Bytes → Option Bytes → View → View
write key o w = record w { read = λ q. if q == key then o else w.read q }

abbrev pub erase : List Bytes → View → View
erase [] w = w
erase (key ∷ keys) w = erase keys (write key none w)

abbrev pub count : View → View
count w = record w { seq = w.seq + 1 }

module _ ⦃rlp : Rlp⦄ {K P : Type 0} (keys : EnrKey K P) where
  abbrev pub write_all : List (Bytes × Bytes) → View → View
  write_all [] w = w
  write_all ((key, value) ∷ rest) w = write_all rest (write key (some (rlp.encode_bytes value)) w)

  -- The signer's public key, under its name.
  abbrev pub write_signer : P → View → View
  write_signer p w = write (keys.enr_key p) (some (rlp.encode_bytes (keys.encode p))) w

  abbrev pub write_entries : Entries → View → View
  write_entries s w =
      write s.port_string (some (rlp.encode_uint s.port))
        (write s.ip_string (some (rlp.encode_bytes s.octets)) w)

  abbrev pub stored : Bytes → Bytes → P → View → View
  stored key value p w = count (write_signer p (write key (some value) w))

  -- What a call that succeeds does, when the signer's public key is `p`: the signer's public key is
  -- written over the value, but new values of `remove_insert` are written over the public key.
  unfoldable pub apply : Call P → P → View → View
  apply (insert_raw_rlp key value) p w = stored key value p w
  apply (insert key value) p w = stored key value p w
  apply (set_ip (v4_addr octets)) p w = stored ip_key (rlp.encode_bytes octets) p w
  apply (set_ip (v6_addr octets)) p w = stored ip6_key (rlp.encode_bytes octets) p w
  apply (set_udp4 port) p w = stored udp_key (rlp.encode_uint port) p w
  apply (set_udp6 port) p w = stored udp6_key (rlp.encode_uint port) p w
  apply (set_tcp4 port) p w = stored tcp_key (rlp.encode_uint port) p w
  apply (set_tcp6 port) p w = stored tcp6_key (rlp.encode_uint port) p w
  apply (set_public_key q) p w = stored (keys.enr_key q) (rlp.encode_bytes (keys.encode q)) p w
  apply (set_udp_socket socket) p w =
      count (write_signer p (write_entries (entries socket Bool.false) w))
  apply (set_tcp_socket socket) p w =
      count (write_signer p (write_entries (entries socket Bool.true) w))
  apply (remove_insert remove_keys kvs) p w =
      count (write_all kvs (write_signer p (erase remove_keys w)))
  apply (set_seq seq) p w = record w { seq = seq }

  -- The calls one after the other.
  unfoldable pub replay : List (Call P × K × Entropy) → View → View
  unfolding apply
  replay [] w = w
  replay ((c, k, rng) ∷ calls) w = replay calls (apply c (keys.public k) w)
