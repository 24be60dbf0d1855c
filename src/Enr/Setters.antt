-- ===== src/Enr/Setters.antt =====
-- `insert_raw_rlp`, and the setters that call it. `k256` is the `EnrKey` of `k256::ecdsa::SigningKey`,
-- for `check_spec_reserved_keys`.
use enr.Prelude.{ℕ, Option, none, some, ltb, length, if◌then◌else◌}
use enr.Prelude.{◌==◌ as nat_eq}
use enr.Prelude.Fallible.{to_option}
use enr.Bytes.{Bytes, ip_key, ip6_key, tcp_key, tcp6_key, udp_key, udp6_key}
use enr.Crates.Rlp.{Rlp}
use enr.Crates.Hashing.{Keccak256}
use enr.Error.{exceeds_max_size}
use enr.Keys.Traits.{Entropy, EnrKey}
use enr.Enr.Defs.{IpAddr, v4_addr, v6_addr, max_enr_size}
use enr.Enr.Encode.{size}
use enr.Enr.Reserved.{check_spec_reserved_keys}
use enr.Enr.Action.{Action, ◌>>=◌, pure, raise, try, gets, call, content_insert, content_revert}
use enr.Enr.Sign.{commit}

-- The previous address of `size` octets, as `set_ip` reads it off what `insert` returns.
abbrev pub previous_ip : (Bytes → IpAddr) → ℕ → Option Bytes → Option IpAddr
previous_ip addr size none = none
previous_ip addr size (some bytes) = if nat_eq (length bytes) size then some (addr bytes) else none

module _ ⦃rlp : Rlp⦄ ⦃keccak : Keccak256⦄ {K P : Type 0} (keys : EnrKey K P) where
  -- `insert_raw_rlp` after the check of the reserved keys
  unfoldable pub store : Bytes → Bytes → K → Entropy → Action (Option Bytes)
  store key value enr_key rng = do
    previous_value ← content_insert key value
    let public_key = keys.public enr_key
    previous_key ←
        content_insert (keys.enr_key public_key) (rlp.encode_bytes (keys.encode public_key))
    oversize ← gets (λ e. ltb max_enr_size (size e))
    if oversize
        then (do
          _ ← content_revert (keys.enr_key public_key) previous_key
          _ ← content_revert key previous_value
          raise exceeds_max_size)
        else (do
          _ ← commit keys enr_key rng
          grown ← gets (λ e. ltb max_enr_size (size e))
          if grown then raise exceeds_max_size else pure previous_value)

module _ ⦃rlp : Rlp⦄ ⦃keccak : Keccak256⦄ {K P S V : Type 0} (keys : EnrKey K P)
    (k256 : EnrKey S V) where
  unfoldable pub insert_raw_rlp : Bytes → Bytes → K → Entropy → Action (Option Bytes)
  insert_raw_rlp key value enr_key rng = do
    checked ← call (check_spec_reserved_keys k256 key value)
    _ ← try checked
    store keys key value enr_key rng

  -- `T: Encodable` by its encoder
  unfoldable pub insert :
      {T : Type 0} → (T → Bytes) → Bytes → T → K → Entropy → Action (Option Bytes)
  insert encode key value enr_key rng = insert_raw_rlp key (encode value) enr_key rng

  unfoldable pub set_ip : IpAddr → K → Entropy → Action (Option IpAddr)
  unfolding insert
  set_ip (v4_addr octets) key rng = do
    prev_value ← insert rlp.encode_bytes ip_key octets key rng
    pure (previous_ip v4_addr 4 prev_value)
  set_ip (v6_addr octets) key rng = do
    prev_value ← insert rlp.encode_bytes ip6_key octets key rng
    pure (previous_ip v6_addr 16 prev_value)

  -- the body that the four port setters share
  abbrev set_port : Bytes → ℕ → K → Entropy → Action (Option ℕ)
  set_port name port key rng = do
    prev_value ← insert rlp.encode_uint name port key rng
    pure (elim prev_value [ none ↦ none | some bytes ↦ to_option (rlp.decode_u16 bytes) ])

  unfoldable pub set_udp4 : ℕ → K → Entropy → Action (Option ℕ)
  unfolding insert
  set_udp4 udp key rng = set_port udp_key udp key rng

  unfoldable pub set_udp6 : ℕ → K → Entropy → Action (Option ℕ)
  unfolding insert
  set_udp6 udp key rng = set_port udp6_key udp key rng

  unfoldable pub set_tcp4 : ℕ → K → Entropy → Action (Option ℕ)
  unfolding insert
  set_tcp4 tcp key rng = set_port tcp_key tcp key rng

  unfoldable pub set_tcp6 : ℕ → K → Entropy → Action (Option ℕ)
  unfolding insert
  set_tcp6 tcp key rng = set_port tcp6_key tcp key rng

  unfoldable pub set_public_key : P → K → Entropy → Action (Unit {0})
  unfolding insert
  set_public_key public_key key rng = do
    _ ← insert rlp.encode_bytes (keys.enr_key public_key) (keys.encode public_key) key rng
    pure tt
