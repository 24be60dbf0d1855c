-- ===== src/Keys/RustSecp256k1.antt =====
-- src/keys/rust_secp256k1.rs: `EnrKey` for `secp256k1::SecretKey`, over the crate `secp256k1` 0.27.
use enr.Prelude.{
  ◌≡◌, Bool, true, false, Option, none, some, Result, ok, ok_or, Panics, ret, drop, length,
}
use enr.Prelude.Fallible.{◌>>=◌}
use enr.Bytes.{Bytes, text, secp256k1_key}
use enr.BtreeMap.{get}
use enr.Crates.Rlp.{Rlp, DecoderError, custom}
use enr.Crates.Hashing.{Keccak256}
use enr.NodeId.{digest}
use enr.Keys.Traits.{
  Content, Entropy, SigningError, new_signing_error, EnrPublicKey, EnrKey, EnrKeyUnambiguous,
}

-- What is called of the crate: secret and public keys, signatures and messages are of its types.
pub record Secp256k1 (S V G M : Type 0) : Type 0 where
  pub message_of_slice : Bytes → Option M
  pub sign_ecdsa_with_noncedata : M → S → Bytes → G
  pub serialize_compact : G → Bytes
  pub signature_of_compact : Bytes → Option G
  -- `verify_ecdsa(…).is_ok()`
  pub verify_ecdsa : M → G → V → Bool
  pub from_secret_key : S → V
  pub public_key_of_slice : Bytes → Option V
  pub serialize : V → Bytes
  -- the 65 bytes with their leading tag
  pub serialize_uncompressed : V → Bytes

-- What the crate documents: 32 bytes make a message, a key's signatures are verified by its public
-- key, and signatures and public keys are read back from their bytes.
pub record Secp256k1Laws {S V G M : Type 0} (c : Secp256k1 S V G M) : Type 0 where
  pub message_of_slice_32 :
      (b : Bytes) → ◌≡◌ (length b) 32 → (m : M) × (c.message_of_slice b ≡ some m)
  pub verify-sign :
      (m : M) (s : S) (nonce : Bytes)
      → c.verify_ecdsa m (c.sign_ecdsa_with_noncedata m s nonce) (c.from_secret_key s) ≡ true
  pub signature_of_compact-serialize :
      (g : G) → c.signature_of_compact (c.serialize_compact g) ≡ some g
  pub public_key_of_slice-serialize : (v : V) → c.public_key_of_slice (c.serialize v) ≡ some v

module _ {S V G M : Type 0} (c : Secp256k1 S V G M) ⦃rlp : Rlp⦄ ⦃keccak : Keccak256⦄ where
  -- The generator's bytes are the 32 of `noncedata`.
  unfoldable pub sign_v4 : Entropy → S → Bytes → Result SigningError Bytes
  unfolding digest new_signing_error
  sign_v4 rng key msg = do
    m ←
        ok_or (c.message_of_slice (digest msg))
          (new_signing_error (text "failed to parse secp256k1 digest"))
    ok (c.serialize_compact (c.sign_ecdsa_with_noncedata m key rng))

  unfoldable pub decode_public : Bytes → Result DecoderError V
  decode_public bytes =
      ok_or (c.public_key_of_slice bytes) (custom (text "Invalid Secp256k1 Signature"))

  unfoldable pub enr_to_public : Content → Result DecoderError V
  enr_to_public content = do
    stored ← ok_or (get secp256k1_key content) (custom (text "Unknown signature"))
    pubkey_bytes ← rlp.data_of stored
    decode_public pubkey_bytes

  unfoldable pub verify_v4 : V → Bytes → Bytes → Bool
  unfolding digest
  verify_v4 key msg sig = elim (c.signature_of_compact sig) [
    | some signature ↦ elim (c.message_of_slice (digest msg)) [
      | some m ↦ c.verify_ecdsa m signature key
      | none ↦ false
    ]
    | none ↦ false
  ]

  unfoldable pub encode_uncompressed : V → Panics Bytes
  encode_uncompressed key = ret (drop 1 (c.serialize_uncompressed key))

  abbrev pub secp256k1_public_key : EnrPublicKey V
  secp256k1_public_key = record {
    verify_v4 = verify_v4;
    encode = c.serialize;
    encode_uncompressed = encode_uncompressed;
    enr_key = λ _. secp256k1_key;
  }

  abbrev pub secp256k1_enr_key : EnrKey S V
  secp256k1_enr_key = record {
    sign_v4 = sign_v4;
    public = c.from_secret_key;
    enr_to_public = enr_to_public;
    public_key = secp256k1_public_key;
  }

  abbrev pub secp256k1_unambiguous : EnrKeyUnambiguous V
  secp256k1_unambiguous = record { decode_public = decode_public }
