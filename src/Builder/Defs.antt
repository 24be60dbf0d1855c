-- ===== src/Builder/Defs.antt =====
-- src/builder.rs: the builder, and `Enr::builder` and `Enr::empty` of src/lib.rs. A method on
-- `&mut self` returns the builder as it leaves it.
use enr.Prelude.{
  ℕ, ◌+◌, ◌*◌, [], ◌∷◌, Option, none, some, Result, ok, err, Panics, ret, length, ltb,
  if◌then◌else◌,
}
use enr.Prelude.Fallible.{map_err}
use enr.Prelude.Panicking.{◌>>=◌}
use enr.Bytes.{
  Bytes, text, from_utf8_lossy, ◌==◌, v4 as v4_scheme, id_key, ip_key, ip6_key, tcp_key, tcp6_key,
  udp_key, udp6_key,
}
use enr.BtreeMap
use enr.Crates.Rlp.{Rlp, begin_list, append_raw}
use enr.Crates.Hashing.{Keccak256}
use enr.Error.{
  EnrError, exceeds_max_size, signing_error, unsupported_identity_scheme, invalid_rlp_data,
}
use enr.NodeId.{of_public_key}
use enr.Keys.Traits.{Content, Entropy, EnrPublicKey, EnrKey}
use enr.Enr.Defs.{Enr, IpAddr, v4_addr, v6_addr, max_enr_size}
use enr.Enr.Encode.{append_pairs}

-- `struct Builder<K>`, less its `PhantomData`
pub record Builder : Type 0 where
  pub id : Bytes
  pub seq : ℕ
  pub content : Content

-- `Default`
unfoldable pub default : Builder
default = record { id = text "v4"; seq = 1; content = [] }

-- `Enr::builder`
unfoldable pub builder : Builder
unfolding default
builder = default

unfoldable pub seq : ℕ → Builder → Builder
seq n b = record b { seq = n }

unfoldable pub add_value_rlp : Bytes → Bytes → Builder → Builder
add_value_rlp key rlp b = record b { content = BtreeMap.insert key rlp b.content }

-- `T: Encodable` by its encoder
unfoldable pub add_value : {T : Type 0} → (T → Bytes) → Bytes → T → Builder → Builder
unfolding add_value_rlp
add_value encode key value b = add_value_rlp key (encode value) b

module _ ⦃rlp : Rlp⦄ where
  unfoldable pub ip4 : Bytes → Builder → Builder
  unfolding add_value
  ip4 octets b = add_value rlp.encode_bytes ip_key octets b

  unfoldable pub ip6 : Bytes → Builder → Builder
  unfolding add_value
  ip6 octets b = add_value rlp.encode_bytes ip6_key octets b

  unfoldable pub ip : IpAddr → Builder → Builder
  unfolding ip4 ip6
  ip (v4_addr octets) b = ip4 octets b
  ip (v6_addr octets) b = ip6 octets b

  unfoldable pub tcp4 : ℕ → Builder → Builder
  unfolding add_value
  tcp4 tcp b = add_value rlp.encode_uint tcp_key tcp b

  unfoldable pub tcp6 : ℕ → Builder → Builder
  unfolding add_value
  tcp6 tcp b = add_value rlp.encode_uint tcp6_key tcp b

  unfoldable pub udp4 : ℕ → Builder → Builder
  unfolding add_value
  udp4 udp b = add_value rlp.encode_uint udp_key udp b

  unfoldable pub udp6 : ℕ → Builder → Builder
  unfolding add_value
  udp6 udp b = add_value rlp.encode_uint udp6_key udp b

  unfoldable pub rlp_content : Builder → Bytes
  unfolding append_pairs
  rlp_content b =
      let s = begin_list (BtreeMap.len b.content * 2 + 1) in
      rlp.out (append_pairs b.content (append_raw (rlp.encode_uint b.seq) s))

  unfoldable pub signature :
      {K P : Type 0} → EnrKey K P → K → Entropy → Builder → Result EnrError Bytes
  unfolding rlp_content
  signature keys key rng b =
      if b.id == v4_scheme
      then map_err (λ _. signing_error) (keys.sign_v4 rng key (rlp_content b))
      else err signing_error

  unfoldable pub add_public_key : {P : Type 0} → EnrPublicKey P → P → Builder → Builder
  unfolding add_value
  add_public_key ops key b = add_value rlp.encode_bytes (ops.enr_key key) (ops.encode key) b

  -- The loop that sanitizes: the first key whose value is no RLP item.
  unfoldable pub first_invalid : Content → Option Bytes
  first_invalid [] = none
  first_invalid ((key, value) ∷ content) = elim (rlp.data_of value) [
    | err _ ↦ some key
    | ok _ ↦ first_invalid content
  ]

  -- `build` from the signature on: the size is that of the signed part, the signature and 8 bytes.
  unfoldable pub finish :
      ⦃keccak : Keccak256⦄
      → {K P : Type 0} → EnrKey K P
      → K
      → Entropy
      → Builder
      → Panics (Result EnrError Enr)
  unfolding signature
  finish keys key rng b = elim (signature keys key rng b) [
    | err x ↦ ret (err x)
    | ok sig ↦
        if ltb max_enr_size (length (rlp_content b) + length sig + 8)
        then ret (err exceeds_max_size)
        else (do
          node_id ← of_public_key keys.public_key (keys.public key)
          ret (
              ok (record { seq = b.seq; node_id = node_id; content = b.content; signature = sig })))
  ]

  unfoldable pub build :
      ⦃keccak : Keccak256⦄
      → {K P : Type 0} → EnrKey K P
      → K
      → Entropy
      → Builder
      → Panics (Result EnrError Enr × Builder)
  unfolding add_value_rlp add_public_key finish
  build keys key rng b =
      if b.id == v4_scheme
      then elim (first_invalid b.content) [
        | some k ↦ ret (err (invalid_rlp_data (from_utf8_lossy k)), b)
        | none ↦
            let b' =
              add_public_key keys.public_key (keys.public key)
                (add_value_rlp id_key (rlp.encode_bytes b.id) b) in
            (do result ← finish keys key rng b'; ret (result, b'))
      ]
      else ret (err unsupported_identity_scheme, b)

  -- `Enr::empty`
  unfoldable pub empty :
      ⦃keccak : Keccak256⦄
      → {K P : Type 0} → EnrKey K P
      → K
      → Entropy
      → Panics (Result EnrError Enr)
  unfolding build builder
  empty keys key rng = do (result, _) ← build keys key rng builder; ret result
