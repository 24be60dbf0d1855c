-- ===== src/Enr/Format.antt =====
-- The traits of `Enr` that print, copy and transport it: `Display`, `Debug`, `Clone`, and those of
-- serde; and the conversions of a record to its identifier in src/node_id.rs.
use enr.Prelude.{
  ℕ, List, [], ◌∷◌, Bool, not, ◌||◌, Option, Result, ok, err, Panics, ret, if◌then◌else◌,
}
use enr.Prelude.Panicking.{◌>>=◌}
use enr.Bytes.{
  Bytes, from_utf8_lossy, ◌==◌, id_key, ip_key, ip6_key, tcp_key, tcp6_key, udp_key, udp6_key,
}
use enr.Crates.Rlp.{Rlp}
use enr.Crates.Hashing.{Keccak256}
use enr.Crates.Text.{Base64, Hex}
use enr.NodeId.{NodeId}
use enr.Keys.Traits.{Content, EnrKey}
use enr.Enr.Defs.{Enr, SocketAddrV4, SocketAddrV6}
use enr.Enr.Getters.{node_id, seq, id, udp4_socket, udp6_socket, tcp4_socket, tcp6_socket}
use enr.Enr.Encode.{to_base64}
use enr.Enr.Decode.{from_str}

-- `Clone`
unfoldable pub clone : Enr → Enr
clone e = record { seq = e.seq; node_id = e.node_id; content = e.content; signature = e.signature }

-- `From<Enr<T>>` and `From<&Enr<T>>` for `NodeId`
unfoldable pub node_id_of_enr : Enr → NodeId
unfolding node_id
node_id_of_enr enr = node_id enr

unfoldable pub node_id_of_enr_ref : Enr → NodeId
unfolding node_id
node_id_of_enr_ref enr = node_id enr

-- the keys that `OtherPairs` skips, `["id", "ip", …].iter().any(…)`
unfoldable pub is_covered : Bytes → Bool
is_covered key =
    id_key == key
    || (ip_key == key
        || (ip6_key == key
            || (udp_key == key || (udp6_key == key || (tcp_key == key || tcp6_key == key)))))

-- What `debug_struct` is given for a record, field by field.
pub record DebugFields : Type 0 where
  pub id : Option Bytes
  pub seq : ℕ
  pub node_id : NodeId
  pub signature : Bytes
  pub udp4 : Option SocketAddrV4
  pub udp6 : Option SocketAddrV6
  pub tcp4 : Option SocketAddrV4
  pub tcp6 : Option SocketAddrV6
  pub other_pairs : List (Bytes × Bytes)

module _ ⦃hex : Hex⦄ where
  -- `OtherPairs`: the entries that the list is given, after the filter and the map
  unfoldable pub other_pairs : Content → List (Bytes × Bytes)
  unfolding is_covered
  other_pairs [] = []
  other_pairs ((key, val) ∷ content) =
      let rest = other_pairs content in
      if not (is_covered key) then (from_utf8_lossy key, hex.encode val) ∷ rest else rest

  -- `Debug`
  unfoldable pub debug_fields : ⦃rlp : Rlp⦄ → Enr → Panics DebugFields
  unfolding other_pairs seq node_id
  debug_fields e = do
    scheme ← id e
    udp4 ← udp4_socket e
    udp6 ← udp6_socket e
    tcp4 ← tcp4_socket e
    tcp6 ← tcp6_socket e
    ret (record {
      id = scheme;
      seq = seq e;
      node_id = node_id e;
      signature = hex.encode e.signature;
      udp4 = udp4;
      udp6 = udp6;
      tcp4 = tcp4;
      tcp6 = tcp6;
      other_pairs = other_pairs e.content;
    })

module _ ⦃rlp : Rlp⦄ ⦃base64 : Base64⦄ where
  -- `Display`
  unfoldable pub display : Enr → Bytes
  unfolding to_base64
  display e = to_base64 e

  -- `Serialize`: the text handed to the serializer
  unfoldable pub serialize : Enr → Bytes
  unfolding to_base64
  serialize e = to_base64 e

  -- `Deserialize`, from what the deserializer returns; `custom` is `D::Error::custom`
  unfoldable pub deserialize :
      ⦃keccak : Keccak256⦄
      → {K P E : Type 0} → EnrKey K P
      → (Bytes → E)
      → Result E Bytes
      → Panics (Result E Enr)
  unfolding from_str
  deserialize keys custom (err e) = ret (err e)
  deserialize keys custom (ok s) = do
    read ← from_str keys s
    ret (elim read [ ok enr ↦ ok enr | err message ↦ err (custom message) ])
