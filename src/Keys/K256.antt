-- ===== src/Keys/K256.antt =====
-- src/keys/k256_key.rs: `EnrKey` for `k256::ecdsa::SigningKey`, over the crate `k256` 0.13.
use enr.Prelude.{
  ◌++◌, ◌≡◌, Bool, true, false, Option, none, some, Result, ok, ok_or, Panics, ret, panic, ◌⊎◌,
}
use enr.Prelude.Fallible.{◌>>=◌}
use enr.Bytes.{Bytes, text, secp256k1_key}
use enr.BtreeMap.{get}
use enr.Crates.Rlp.{Rlp, DecoderError, custom}
use enr.Crates.Hashing.{Keccak256}
use enr.Keys.Traits.{
  Content, Entropy, SigningError, new_signing_error, EnrPublicKey, EnrKey, EnrKeyUnambiguous,
}

-- `sec1::Coordinates`; a coordinate is a field element of 32 bytes.
pub data Coordinates : Type 0 where
  compact : Coordinates
  identity : Coordinates
  compressed : Bytes → Bool → Coordinates
  uncompressed : Bytes → Bytes → Coordinates

-- What is called of the crate: a signing key, a verifying key and a signature are of its types.
pub record K256 (S V G : Type 0) : Type 0 where
  -- `try_sign_digest_with_rng`, on the hash of the message
  pub try_sign_digest : Entropy → S → Bytes → Option G
  -- `Signature::to_vec` and `TryFrom<&[u8]>`
  pub signature_to_vec : G → Bytes
  pub signature_of_slice : Bytes → Option G
  pub verifying_key : S → V
  -- `VerifyingKey::from_sec1_bytes`
  pub from_sec1_bytes : Bytes → Option V
  -- `verify_digest(…).is_ok()`
  pub verify_digest : V → Bytes → G → Bool
  -- `CompressedPoint::from`
  pub to_compressed : V → Bytes
  -- `EncodedPoint::from(key).coordinates()`
  pub coordinates : V → Coordinates
  -- `AffinePoint::decompress(x, y_is_odd)`, then its `y` as an uncompressed point
  pub decompress_y : Bytes → Bool → Option Bytes

-- What the crate documents: a key's signatures are verified by its verifying key, also from their
-- bytes, and a compressed point is read back.
pub record K256Laws {S V G : Type 0} (c : K256 S V G) : Type 0 where
  pub verify-try_sign :
      (rng : Entropy) (s : S) (hash : Bytes) {g : G}
      → c.try_sign_digest rng s hash ≡ some g
      → c.verify_digest (c.verifying_key s) hash g ≡ true
  pub signature_of_slice-to_vec : (g : G) → c.signature_of_slice (c.signature_to_vec g) ≡ some g
  -- a verifying key is a point of the curve other than the identity
  pub coordinates_point :
      (v : V)
      → (x : Bytes) × (y : Bytes) × ((c.coordinates v ≡ uncompressed x y)
          ⊎ ((odd : Bool) × (c.coordinates v ≡ compressed x odd) × (c.decompress_y x odd ≡ some y)))
  pub from_sec1-to_compressed : (v : V) → c.from_sec1_bytes (c.to_compressed v) ≡ some v

module _ {S V G : Type 0} (c : K256 S V G) ⦃rlp : Rlp⦄ ⦃keccak : Keccak256⦄ where
  unfoldable pub sign_v4 : Entropy → S → Bytes → Result SigningError Bytes
  unfolding new_signing_error
  sign_v4 rng key msg = do
    signature ←
        ok_or (c.try_sign_digest rng key (keccak.hash msg))
          (new_signing_error (text "failed to sign"))
    ok (c.signature_to_vec signature)

  unfoldable pub decode_public : Bytes → Result DecoderError V
  decode_public bytes =
      ok_or (c.from_sec1_bytes bytes) (custom (text "Invalid Secp256k1 Signature"))

  unfoldable pub enr_to_public : Content → Result DecoderError V
  enr_to_public content = do
    stored ← ok_or (get secp256k1_key content) (custom (text "Unknown signature"))
    pubkey_bytes ← rlp.data_of stored
    decode_public pubkey_bytes

  unfoldable pub verify_v4 : V → Bytes → Bytes → Bool
  verify_v4 key msg sig = elim (c.signature_of_slice sig) [
    | some signature ↦ c.verify_digest key (keccak.hash msg) signature
    | none ↦ false
  ]

  unfoldable pub encode_uncompressed : V → Panics Bytes
  encode_uncompressed key = elim (c.coordinates key) [
    | compact ↦ panic
    | identity ↦ panic
    | compressed x y_is_odd ↦ elim (c.decompress_y x y_is_odd) [
      | some y ↦ ret (x ++ y)
      | none ↦ panic
    ]
    | uncompressed x y ↦ ret (x ++ y)
  ]

  abbrev pub k256_public_key : EnrPublicKey V
  k256_public_key = record {
    verify_v4 = verify_v4;
    encode = c.to_compressed;
    encode_uncompressed = encode_uncompressed;
    enr_key = λ _. secp256k1_key;
  }

  abbrev pub k256_key : EnrKey S V
  k256_key = record {
    sign_v4 = sign_v4;
    public = c.verifying_key;
    enr_to_public = enr_to_public;
    public_key = k256_public_key;
  }

  abbrev pub k256_unambiguous : EnrKeyUnambiguous V
  k256_unambiguous = record { decode_public = decode_public }
