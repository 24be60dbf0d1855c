-- ===== src/Keys/Laws/Both.antt =====
-- The combined key: it keeps the promise of signatures for both kinds, and reads a content as the
-- `secp256k1` key whenever it stores one.
use enr.Prelude.{◌≡◌, true, ok, err, ret, replicate, length, arith}
use enr.Bytes.{Bytes}
use enr.Crates.Rlp.{Rlp, DecoderError}
use enr.Keys.Traits.{Content, Entropy, EnrKey}
use enr.Keys.Combined
use enr.Keys.Combined.{
  CombinedKey, CombinedPublicKey, combined_key, SecretKeys, SecretKeysLaws, secp256k1_from_bytes,
  ed25519_from_bytes, encode_secret,
}
use enr.Keys.Laws.{IsFree, KeyLaws, IsUnambiguous, Stores}

module _ {S E V W : Type 0} (k : EnrKey S V) (e : EnrKey E W) where
  module _ (k_law : KeyLaws k) (e_law : KeyLaws e) where
    both_verify-sign :
        (rng : Entropy) (key : CombinedKey S E) (msg : Bytes) {sig : Bytes}
        → Combined.sign_v4 k e rng key msg ≡ ok sig
        → Combined.verify_v4 k e (Combined.public k e key) msg sig ≡ true
    unfolding Combined.sign_v4 Combined.verify_v4 Combined.public
    both_verify-sign rng (CombinedKey.secp256k1 key) msg h = k_law.verify-sign rng key msg h
    both_verify-sign rng (CombinedKey.ed25519 key) msg h = e_law.verify-sign rng key msg h

    both_total :
        (p : CombinedPublicKey V W) → (b : Bytes) × (Combined.encode_uncompressed k e p ≡ ret b)
    unfolding Combined.encode_uncompressed
    both_total (CombinedPublicKey.secp256k1 p) = k_law.encode_uncompressed_total p
    both_total (CombinedPublicKey.ed25519 p) = e_law.encode_uncompressed_total p

    both-IsFree : (p : CombinedPublicKey V W) → IsFree (Combined.enr_key k e p)
    unfolding Combined.enr_key
    both-IsFree (CombinedPublicKey.secp256k1 p) = k_law.enr_key-IsFree p
    both-IsFree (CombinedPublicKey.ed25519 p) = e_law.enr_key-IsFree p

    -- Combined keys keep the promises of the traits, if both kinds of key do.
    pub combined-KeyLaws : KeyLaws (combined_key k e)
    combined-KeyLaws = record {
      verify-sign = both_verify-sign;
      encode_uncompressed_total = both_total;
      enr_key-IsFree = both-IsFree;
    }

  -- A readable `secp256k1` key of a content is read, whatever else is stored: it hides an `ed25519`
  -- key.
  pub combined-enr_to_public_secp256k1 :
      (content : Content) (p : V)
      → k.enr_to_public content ≡ ok p
      → Combined.enr_to_public k e content ≡ ok (CombinedPublicKey.secp256k1 p)
  unfolding Combined.enr_to_public
  combined-enr_to_public_secp256k1 content p h = rw h

  -- A content that stores an `ed25519` key is read as that key, if it has no readable `secp256k1`
  -- key.
  pub combined-enr_to_public_ed25519 :
      ⦃rlp : Rlp⦄ (e_own : IsUnambiguous e) (content : Content) (q : W) {x : DecoderError}
      → Stores (combined_key k e) (CombinedPublicKey.ed25519 q) content
      → k.enr_to_public content ≡ err x
      → Combined.enr_to_public k e content ≡ ok (CombinedPublicKey.ed25519 q)
  unfolding Combined.enr_to_public Combined.enr_key Combined.encode
  combined-enr_to_public_ed25519 e_own content q h none_readable =
      rw (none_readable, e_own.enr_to_public_lem q content h)

module _ {S E : Type 0} (c : SecretKeys S E) (law : SecretKeysLaws c) where
  -- The import of a key's own bytes gives the key back and clears the caller's buffer.
  pub from_bytes-encode_secret :
      (s : S) (e : E)
      → (secp256k1_from_bytes c (encode_secret c (CombinedKey.secp256k1 s))
          ≡ (ok (CombinedKey.secp256k1 s), replicate (length (c.secp256k1_to_bytes s)) 0))
        × (ed25519_from_bytes c (encode_secret c (CombinedKey.ed25519 e))
            ≡ (ok (CombinedKey.ed25519 e), replicate (length (c.ed25519_to_bytes e)) 0))
  unfolding secp256k1_from_bytes ed25519_from_bytes encode_secret
  from_bytes-encode_secret s e = (
    ground (arith, law.secp256k1_of_slice-to_bytes s),
    ground (arith, law.ed25519_of_slice-to_bytes e),
  )
