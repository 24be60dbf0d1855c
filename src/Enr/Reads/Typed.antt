-- ===== src/Enr/Reads/Typed.antt =====
-- The getters of a valid record return what their types promise.
use enr.Prelude.{
  ℕ, ◌^◌, ◌<◌, ◌≡◌, refl, true, ◌⊎◌, inl, inr, Option, none, some, Result, ok, err, Panics, ret,
  panic, arith,
}
use enr.Bytes.{Bytes, compare_bytes, v4, tcp_key, tcp6_key, udp_key, udp6_key}
use enr.Bytes.Laws.{eq_of_compare}
use enr.BtreeMap
use enr.BtreeMap.Laws.{All-get}
use enr.Crates.Rlp.{Rlp, RlpLaws, DecoderError}
use enr.Crates.Hashing.{Keccak256}
use enr.NodeId.{of_public_key}
use enr.Keys.Traits.{EnrKey}
use enr.Enr.Defs.{Enr}
use enr.Enr.Getters.{get_raw_rlp, get_decodable, id, tcp4, tcp6, udp4, udp6}
use enr.Enr.Encode.{verify, public_key, rlp_content}
use enr.Enr.Decode.{sanitize, is_keyof_u16}
use enr.Enr.Valid.{IsSound, IsValid, Entry}
use enr.Enr.Reads.Stored.{read_port}

module _ ⦃rlp : Rlp⦄ where
  -- A port getter returns a port of 16 bits if its key is stored, and nothing otherwise.
  abbrev pub PortTyped : (Enr → Option ℕ) → Bytes → Enr → Type 0
  PortTyped getter name e =
      ((get_raw_rlp e name ≡ none) × (getter e ≡ none))
      ⊎ ((raw : Bytes) × (port : ℕ) × (get_raw_rlp e name ≡ some raw)
          × (getter e ≡ some port)
          × (port < 2 ^ 16))

  read_port_typed :
      (law : RlpLaws rlp) (name : Bytes) (e : Enr)
      → is_keyof_u16 name ≡ true
      → IsSound e.content
      → PortTyped (read_port name) name e
  unfolding get_decodable get_raw_rlp
  read_port_typed law name e is_port sound = by_entry (BtreeMap.get name e.content) refl
    where
      by_port :
          (raw : Bytes)
          → BtreeMap.get name e.content ≡ some raw
          → sanitize name raw ≡ ok tt
          → (r : Result DecoderError ℕ) → rlp.decode_u16 raw ≡ r
          → PortTyped (read_port name) name e
      by_port raw i s (ok port) j =
          inr (raw, port, i, ground (arith, i, j), law.decode_u16_range raw j)
      by_port raw i s (err x) j = absurd (unfold sanitize in ground (arith, is_port, s, j))

      by_entry :
          (o : Option Bytes) → BtreeMap.get name e.content ≡ o → PortTyped (read_port name) name e
      by_entry none i = inl (i, ground (arith, i))
      by_entry (some raw) i =
          by_port raw i (All-get Entry name {v = raw} e.content sound.entries i).sanitized
            (rlp.decode_u16 raw) refl

  -- What a record that verifies says of itself.
  verified-scheme :
      {K P : Type 0} (keys : EnrKey K P) (e : Enr) (p : P)
      → public_key keys e ≡ ret p
      → verify keys e ≡ ret true
      → (id e ≡ ret (some v4)) × (keys.verify_v4 p (rlp_content e) e.signature ≡ true)
  unfolding verify
  verified-scheme keys e p known verified = by_scheme (id e) refl
    where
      by_scheme :
          (o : Panics (Option Bytes))
          → id e ≡ o
          → (id e ≡ ret (some v4)) × (keys.verify_v4 p (rlp_content e) e.signature ≡ true)
      by_scheme (ret (some s)) i = ground (arith, known, verified, i, eq_of_compare s v4)
      by_scheme (ret none) i = absurd (ground (arith, known, verified, i))
      by_scheme panic i = absurd (ground (arith, known, verified, i))

  -- A valid record names the scheme `v4`; it has a public key, that of its node, which verifies its
  -- signature over its content. Each of its four port getters returns a port of 16 bits if the port's
  -- key is stored, and nothing if it is not.
  pub getters_typed :
      ⦃keccak : Keccak256⦄
      → {K P : Type 0} (law : RlpLaws rlp) (keys : EnrKey K P) (e : Enr) → IsValid keys e
      → (id e ≡ ret (some v4))
        × ((p : P) × (public_key keys e ≡ ret p)
            × (of_public_key keys.public_key p ≡ ret e.node_id)
            × (keys.verify_v4 p (rlp_content e) e.signature ≡ true))
        × PortTyped tcp4 tcp_key e
        × PortTyped tcp6 tcp6_key e
        × PortTyped udp4 udp_key e
        × PortTyped udp6 udp6_key e
  unfolding tcp4 tcp6 udp4 udp6 public_key
  getters_typed law keys e v =
      let known : public_key keys e ≡ ret v.public = rw v.known refl in
      let (scheme, signed) = verified-scheme keys e v.public known v.verified in
      (
        scheme,
        (v.public, known, v.identified, signed),
        read_port_typed law tcp_key e (unfold is_keyof_u16 compare_bytes in refl) v.sound,
        read_port_typed law tcp6_key e (unfold is_keyof_u16 compare_bytes in refl) v.sound,
        read_port_typed law udp_key e (unfold is_keyof_u16 compare_bytes in refl) v.sound,
        read_port_typed law udp6_key e (unfold is_keyof_u16 compare_bytes in refl) v.sound,
      )
