-- ===== src/Keys/Combined.antt =====
-- src/keys/combined.rs: a key of either kind, over the implementations for `k256` and
-- `ed25519-dalek`, which are taken by the methods of their traits.
use enr.Prelude.{Bool, Option, none, some, Result, ok, err, Panics, length, replicate, ◌≡◌}
use enr.Prelude.Fallible.{map, or_else}
use enr.Bytes.{Bytes, text}
use enr.Crates.Rlp.{DecoderError, custom}
use enr.Keys.Traits.{Content, Entropy, SigningError, EnrPublicKey, EnrKey}

pub data CombinedKey (S E : Type 0) : Type 0 where
  secp256k1 : S → CombinedKey S E
  ed25519 : E → CombinedKey S E

pub data CombinedPublicKey (V W : Type 0) : Type 0 where
  secp256k1 : V → CombinedPublicKey V W
  ed25519 : W → CombinedPublicKey V W

-- `From` for the two kinds of signing keys, and of public keys
abbrev pub of_secp256k1_key : {S E : Type 0} → S → CombinedKey S E
of_secp256k1_key secret_key = CombinedKey.secp256k1 secret_key

abbrev pub of_ed25519_key : {S E : Type 0} → E → CombinedKey S E
of_ed25519_key keypair = CombinedKey.ed25519 keypair

abbrev pub of_secp256k1_public : {V W : Type 0} → V → CombinedPublicKey V W
of_secp256k1_public public_key = CombinedPublicKey.secp256k1 public_key

abbrev pub of_ed25519_public : {V W : Type 0} → W → CombinedPublicKey V W
of_ed25519_public public_key = CombinedPublicKey.ed25519 public_key

-- What `secp256k1_from_bytes`, `ed25519_from_bytes` and `encode` call of the two crates, and what
-- the generators draw a key from.
pub record SecretKeys (S E : Type 0) : Type 0 where
  pub secp256k1_of_slice : Bytes → Option S
  pub secp256k1_to_bytes : S → Bytes
  pub secp256k1_random : Entropy → S
  pub ed25519_of_slice : Bytes → Option E
  pub ed25519_to_bytes : E → Bytes
  pub ed25519_generate : Entropy → E

pub record SecretKeysLaws {S E : Type 0} (c : SecretKeys S E) : Type 0 where
  pub secp256k1_of_slice-to_bytes : (s : S) → c.secp256k1_of_slice (c.secp256k1_to_bytes s) ≡ some s
  pub ed25519_of_slice-to_bytes : (e : E) → c.ed25519_of_slice (c.ed25519_to_bytes e) ≡ some e

module _ {S E : Type 0} (c : SecretKeys S E) where
  unfoldable pub generate_secp256k1 : Entropy → CombinedKey S E
  generate_secp256k1 rng = CombinedKey.secp256k1 (c.secp256k1_random rng)

  unfoldable pub generate_ed25519 : Entropy → CombinedKey S E
  generate_ed25519 rng = CombinedKey.ed25519 (c.ed25519_generate rng)

  -- The second part is the caller's buffer after the call: `zeroize` clears it on success only.
  unfoldable pub secp256k1_from_bytes : Bytes → Result DecoderError (CombinedKey S E) × Bytes
  secp256k1_from_bytes bytes = elim (c.secp256k1_of_slice bytes) [
    | some key ↦ (ok (of_secp256k1_key key), replicate (length bytes) 0)
    | none ↦ (err (custom (text "Invalid secp256k1 secret key")), bytes)
  ]

  unfoldable pub ed25519_from_bytes : Bytes → Result DecoderError (CombinedKey S E) × Bytes
  ed25519_from_bytes bytes = elim (c.ed25519_of_slice bytes) [
    | some key ↦ (ok (of_ed25519_key key), replicate (length bytes) 0)
    | none ↦ (err (custom (text "Invalid ed25519 secret key")), bytes)
  ]

  unfoldable pub encode_secret : CombinedKey S E → Bytes
  encode_secret (CombinedKey.secp256k1 key) = c.secp256k1_to_bytes key
  encode_secret (CombinedKey.ed25519 key) = c.ed25519_to_bytes key

module _ {S E V W : Type 0} (k : EnrKey S V) (e : EnrKey E W) where
  unfoldable pub sign_v4 : Entropy → CombinedKey S E → Bytes → Result SigningError Bytes
  sign_v4 rng (CombinedKey.secp256k1 key) msg = k.sign_v4 rng key msg
  sign_v4 rng (CombinedKey.ed25519 key) msg = e.sign_v4 rng key msg

  unfoldable pub public : CombinedKey S E → CombinedPublicKey V W
  public (CombinedKey.secp256k1 key) = of_secp256k1_public (k.public key)
  public (CombinedKey.ed25519 key) = of_ed25519_public (e.public key)

  -- `secp256k1` first, and `ed25519` where that fails
  unfoldable pub enr_to_public : Content → Result DecoderError (CombinedPublicKey V W)
  enr_to_public content =
      or_else (map CombinedPublicKey.secp256k1 (k.enr_to_public content))
        (λ _. map of_ed25519_public (e.enr_to_public content))

  unfoldable pub verify_v4 : CombinedPublicKey V W → Bytes → Bytes → Bool
  verify_v4 (CombinedPublicKey.secp256k1 pk) msg sig = k.verify_v4 pk msg sig
  verify_v4 (CombinedPublicKey.ed25519 pk) msg sig = e.verify_v4 pk msg sig

  unfoldable pub encode : CombinedPublicKey V W → Bytes
  encode (CombinedPublicKey.secp256k1 pk) = k.encode pk
  encode (CombinedPublicKey.ed25519 pk) = e.encode pk

  unfoldable pub encode_uncompressed : CombinedPublicKey V W → Panics Bytes
  encode_uncompressed (CombinedPublicKey.secp256k1 pk) = k.encode_uncompressed pk
  encode_uncompressed (CombinedPublicKey.ed25519 pk) = e.encode_uncompressed pk

  unfoldable pub enr_key : CombinedPublicKey V W → Bytes
  enr_key (CombinedPublicKey.secp256k1 key) = k.enr_key key
  enr_key (CombinedPublicKey.ed25519 key) = e.enr_key key

  abbrev pub combined_public_key : EnrPublicKey (CombinedPublicKey V W)
  combined_public_key = record {
    verify_v4 = verify_v4;
    encode = encode;
    encode_uncompressed = encode_uncompressed;
    enr_key = enr_key;
  }

  abbrev pub combined_key : EnrKey (CombinedKey S E) (CombinedPublicKey V W)
  combined_key = record {
    sign_v4 = sign_v4;
    public = public;
    enr_to_public = enr_to_public;
    public_key = combined_public_key;
  }
