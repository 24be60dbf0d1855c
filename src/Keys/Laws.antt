-- ===== src/Keys/Laws.antt =====
-- What the traits of src/keys/mod.rs promise, as an interface for the operations on records.
pub mod Single
pub mod Both
use enr.Prelude.{◌≤◌, length, ◌≡◌, ◌≢◌, true, some, ok, ret}
use enr.Bytes.{Bytes, id_key, ip_key, ip6_key, tcp_key, tcp6_key, udp_key, udp6_key}
use enr.BtreeMap
use enr.Crates.Rlp.{Rlp}
use enr.Keys.Traits.{Content, Entropy, EnrKey, EnrKeyUnambiguous}

-- The name under which a public key is stored is none of the record's other reserved keys.
pub record IsFree (key : Bytes) : Type 0 where
  pub ne_id : key ≢ id_key
  pub ne_ip : key ≢ ip_key
  pub ne_ip6 : key ≢ ip6_key
  pub ne_tcp : key ≢ tcp_key
  pub ne_tcp6 : key ≢ tcp6_key
  pub ne_udp : key ≢ udp_key
  pub ne_udp6 : key ≢ udp6_key

-- A key verifies what it has signed, and its uncompressed form can be computed.
pub record KeyLaws {K P : Type 0} (keys : EnrKey K P) : Type 0 where
  pub verify-sign :
      (rng : Entropy) (k : K) (msg : Bytes) {sig : Bytes}
      → keys.sign_v4 rng k msg ≡ ok sig
      → keys.verify_v4 (keys.public k) msg sig ≡ true
  pub encode_uncompressed_total : (p : P) → (b : Bytes) × (keys.encode_uncompressed p ≡ ret b)
  pub enr_key-IsFree : (p : P) → IsFree (keys.enr_key p)

module _ ⦃rlp : Rlp⦄ {K P : Type 0} (keys : EnrKey K P) where
  -- The content stores the public key under its name.
  abbrev pub Stores : P → Content → Type 0
  Stores p content = BtreeMap.get (keys.enr_key p) content ≡ some (rlp.encode_bytes (keys.encode p))

-- A key that is uniquely represented: a content that stores a public key is read as that key.
pub record IsUnambiguous ⦃rlp : Rlp⦄ {K P : Type 0} (keys : EnrKey K P) : Type 0 where
  pub enr_to_public_lem :
      (p : P) (content : Content) → Stores keys p content → keys.enr_to_public content ≡ ok p

-- The bytes of a public key decode to it, and a content is read by decoding the bytes that it stores
-- under the key's name, whatever they are.
pub record IsDecoded ⦃rlp : Rlp⦄ {K P : Type 0} (keys : EnrKey K P)
    (unambiguous : EnrKeyUnambiguous P) : Type 0 where
  pub decode_public-encode : (p : P) → unambiguous.decode_public (keys.encode p) ≡ ok p
  pub enr_to_public-decode_public :
      (p : P) (content : Content) (raw bytes : Bytes)
      → BtreeMap.get (keys.enr_key p) content ≡ some raw
      → rlp.data_of raw ≡ ok bytes
      → keys.enr_to_public content ≡ unambiguous.decode_public bytes

-- The sizes that the program counts on: those of the compressed keys and the signatures.
pub record IsCompact {K P : Type 0} (keys : EnrKey K P) : Type 0 where
  pub length-encode : (p : P) → length (keys.encode p) ≤ 33
  pub length-enr_key : (p : P) → length (keys.enr_key p) ≤ 9
  pub length-sign_v4 :
      (rng : Entropy) (k : K) (msg : Bytes) {sig : Bytes}
      → keys.sign_v4 rng k msg ≡ ok sig
      → length sig ≤ 64
