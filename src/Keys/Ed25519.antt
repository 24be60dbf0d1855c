-- ===== src/Keys/Ed25519.antt =====
-- src/keys/ed25519.rs: `EnrKey` for `ed25519_dalek::SigningKey`, over the crate `ed25519-dalek` 2.0.
use enr.Prelude.{◌≡◌, Bool, true, false, Option, none, some, Result, ok, ok_or, Panics, ret}
use enr.Prelude.Fallible.{◌>>=◌}
use enr.Bytes.{Bytes, text, ed25519_key}
use enr.BtreeMap.{get}
use enr.Crates.Rlp.{Rlp, DecoderError, custom}
use enr.Keys.Traits.{Content, Entropy, SigningError, EnrPublicKey, EnrKey, EnrKeyUnambiguous}

-- What is called of the crate: a signing key, a verifying key and a signature are of its types.
pub record Ed25519 (S V G : Type 0) : Type 0 where
  pub sign : S → Bytes → G
  pub signature_to_bytes : G → Bytes
  -- `Signature::try_from(&[u8])` and `VerifyingKey::try_from(&[u8])`
  pub signature_of_slice : Bytes → Option G
  pub verifying_key_of_slice : Bytes → Option V
  pub verifying_key : S → V
  -- `verify(…).is_ok()`
  pub verify : V → Bytes → G → Bool
  pub to_bytes : V → Bytes

-- What the crate documents: a key's signatures are verified by its verifying key, and signatures and
-- verifying keys are read back from their bytes.
pub record Ed25519Laws {S V G : Type 0} (c : Ed25519 S V G) : Type 0 where
  pub verify-sign : (s : S) (msg : Bytes) → c.verify (c.verifying_key s) msg (c.sign s msg) ≡ true
  pub signature_of_slice-to_bytes : (g : G) → c.signature_of_slice (c.signature_to_bytes g) ≡ some g
  pub verifying_key_of_slice-to_bytes : (v : V) → c.verifying_key_of_slice (c.to_bytes v) ≡ some v

module _ {S V G : Type 0} (c : Ed25519 S V G) ⦃rlp : Rlp⦄ where
  -- draws nothing from the generator
  unfoldable pub sign_v4 : Entropy → S → Bytes → Result SigningError Bytes
  sign_v4 rng key msg = ok (c.signature_to_bytes (c.sign key msg))

  unfoldable pub decode_public : Bytes → Result DecoderError V
  decode_public bytes =
      ok_or (c.verifying_key_of_slice bytes) (custom (text "Invalid ed25519 Signature"))

  unfoldable pub enr_to_public : Content → Result DecoderError V
  enr_to_public content = do
    stored ← ok_or (get ed25519_key content) (custom (text "Unknown signature"))
    pubkey_bytes ← rlp.data_of stored
    decode_public pubkey_bytes

  unfoldable pub verify_v4 : V → Bytes → Bytes → Bool
  verify_v4 key msg sig = elim (c.signature_of_slice sig) [
    | some signature ↦ c.verify key msg signature
    | none ↦ false
  ]

  unfoldable pub encode : V → Bytes
  encode key = c.to_bytes key

  unfoldable pub encode_uncompressed : V → Panics Bytes
  unfolding encode
  encode_uncompressed key = ret (encode key)

  abbrev pub ed25519_public_key : EnrPublicKey V
  ed25519_public_key = record {
    verify_v4 = verify_v4;
    encode = encode;
    encode_uncompressed = encode_uncompressed;
    enr_key = λ _. ed25519_key;
  }

  abbrev pub ed25519_enr_key : EnrKey S V
  ed25519_enr_key = record {
    sign_v4 = sign_v4;
    public = c.verifying_key;
    enr_to_public = enr_to_public;
    public_key = ed25519_public_key;
  }

  abbrev pub ed25519_unambiguous : EnrKeyUnambiguous V
  ed25519_unambiguous = record { decode_public = decode_public }
