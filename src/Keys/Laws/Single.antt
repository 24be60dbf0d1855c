-- ===== src/Keys/Laws/Single.antt =====
-- The three single key types keep the promises of the traits, from what their crates document.
use enr.Prelude.{
  ◌≡◌, ◌++◌, refl, true, some, ok, ret, ◌⊎◌, inl, inr, Bool, arith, drop, Option-cases,
}
use enr.Bytes.{Bytes, secp256k1_key, ed25519_key}
use enr.Crates.Rlp.{Rlp, RlpLaws}
use enr.Crates.Hashing.{Keccak256, KeccakLaws}
use enr.Keys.Traits.{Entropy}
use enr.Keys.K256
use enr.Keys.K256.{
  K256, K256Laws, Coordinates, compressed, uncompressed, k256_key, k256_unambiguous,
}
use enr.Keys.Ed25519
use enr.Keys.Ed25519.{Ed25519, Ed25519Laws, ed25519_enr_key, ed25519_unambiguous}
use enr.Keys.RustSecp256k1
use enr.Keys.RustSecp256k1.{Secp256k1, Secp256k1Laws, secp256k1_enr_key, secp256k1_unambiguous}
use enr.Keys.Laws.{IsFree, KeyLaws, IsUnambiguous, IsDecoded}

secp256k1-IsFree : IsFree secp256k1_key
secp256k1-IsFree = ground arith

ed25519-IsFree : IsFree ed25519_key
ed25519-IsFree = ground arith

module _ ⦃rlp : Rlp⦄ (rlp_law : RlpLaws rlp) ⦃keccak : Keccak256⦄ where
  module _ {S V G : Type 0} (c : K256 S V G) (law : K256Laws c) where
    -- A signature of a `k256` key is verified by its public key.
    k256_verify-sign :
        (rng : Entropy) (k : S) (msg : Bytes) {sig : Bytes}
        → K256.sign_v4 c rng k msg ≡ ok sig
        → K256.verify_v4 c (c.verifying_key k) msg sig ≡ true
    unfolding K256.sign_v4 K256.verify_v4
    k256_verify-sign rng k msg {sig} e =
        elim (Option-cases (c.try_sign_digest rng k (keccak.hash msg))) [
          | inl failed ↦ ground arith
          | inr (g, signed) ↦ ground (
            arith,
            law.verify-try_sign rng k (keccak.hash msg) signed,
            law.signature_of_slice-to_vec g,
          )
        ]

    k256_uncompressed : (v : V) → (b : Bytes) × (K256.encode_uncompressed c v ≡ ret b)
    unfolding K256.encode_uncompressed
    k256_uncompressed v =
        let (x, y, shape) = law.coordinates_point v in (x ++ y, by_shape x y shape)
      where
        by_shape :
            (x y : Bytes)
            → ((c.coordinates v ≡ uncompressed x y)
                ⊎ ((odd : Bool) × (c.coordinates v ≡ compressed x odd)
                    × (c.decompress_y x odd ≡ some y)))
            → K256.encode_uncompressed c v ≡ ret (x ++ y)
        by_shape x y (inl whole) = rw (whole, K256.encode_uncompressed)
        by_shape x y (inr (odd, half, root)) = rw (half, K256.encode_uncompressed) (rw root)

    -- `k256` keys keep the promises of the traits: a public key verifies what its key has signed,
    -- its uncompressed form is computed without a panic, and its name is no other reserved key.
    pub k256-KeyLaws : KeyLaws (k256_key c)
    k256-KeyLaws = record {
      verify-sign = k256_verify-sign;
      encode_uncompressed_total = k256_uncompressed;
      enr_key-IsFree = λ _. secp256k1-IsFree;
    }

    -- A content that stores a `k256` key is read as that key.
    pub k256-IsUnambiguous : IsUnambiguous (k256_key c)
    unfolding K256.enr_to_public K256.decode_public
    k256-IsUnambiguous = record {
      enr_to_public_lem = λ p content h.
          ground (
            arith,
            rlp_law.data_of-encode_bytes (c.to_compressed p),
            law.from_sec1-to_compressed p,
          );
    }

    k256-IsDecoded : IsDecoded (k256_key c) (k256_unambiguous c)
    unfolding K256.enr_to_public K256.decode_public
    k256-IsDecoded = record {
      decode_public-encode = λ p. ground (arith, law.from_sec1-to_compressed p);
      enr_to_public-decode_public = λ p content raw bytes h d. ground (arith, h, d);
    }

    -- `k256` keys keep the promises of the traits, if the crate keeps its own: a key's
    -- signatures are verified by its public key, no public key makes a node identifier panic, the name
    -- of the public key is none that the specification reserves for other data, a content that
    -- stores a public key is read as that key, the bytes of a public key decode to it, and a content is
    -- read by decoding the bytes stored under the key's name.
    pub k256_lawful :
        KeyLaws (k256_key c)
        × IsUnambiguous (k256_key c)
        × IsDecoded (k256_key c) (k256_unambiguous c)
    k256_lawful = (k256-KeyLaws, k256-IsUnambiguous, k256-IsDecoded)

  module _ {S V G : Type 0} (c : Ed25519 S V G) (law : Ed25519Laws c) where
    ed25519_verify-sign :
        (rng : Entropy) (k : S) (msg : Bytes) {sig : Bytes}
        → Ed25519.sign_v4 c rng k msg ≡ ok sig
        → Ed25519.verify_v4 c (c.verifying_key k) msg sig ≡ true
    unfolding Ed25519.sign_v4 Ed25519.verify_v4
    ed25519_verify-sign rng k msg e =
        ground (arith, law.verify-sign k msg, law.signature_of_slice-to_bytes (c.sign k msg))

    -- `ed25519-dalek` keys keep the promises of the traits: a public key verifies what its key has
    -- signed, its uncompressed form is computed without a panic, and its name is no other reserved
    -- key.
    pub ed25519-KeyLaws : KeyLaws (ed25519_enr_key c)
    unfolding Ed25519.encode_uncompressed
    ed25519-KeyLaws = record {
      verify-sign = ed25519_verify-sign;
      encode_uncompressed_total = λ v. (Ed25519.encode c v, refl);
      enr_key-IsFree = λ _. ed25519-IsFree;
    }

    -- A content that stores an `ed25519-dalek` key is read as that key.
    pub ed25519-IsUnambiguous : IsUnambiguous (ed25519_enr_key c)
    unfolding Ed25519.enr_to_public Ed25519.decode_public Ed25519.encode
    ed25519-IsUnambiguous = record {
      enr_to_public_lem = λ p content h. ground (
        arith,
        rlp_law.data_of-encode_bytes (c.to_bytes p),
        law.verifying_key_of_slice-to_bytes p,
      );
    }

    ed25519-IsDecoded : IsDecoded (ed25519_enr_key c) (ed25519_unambiguous c)
    unfolding Ed25519.enr_to_public Ed25519.decode_public Ed25519.encode
    ed25519-IsDecoded = record {
      decode_public-encode = λ p. ground (arith, law.verifying_key_of_slice-to_bytes p);
      enr_to_public-decode_public = λ p content raw bytes h d. ground (arith, h, d);
    }

    -- `ed25519-dalek` keys keep the promises of the traits, if the crate keeps its own: a key's
    -- signatures are verified by its public key, no public key makes a node identifier panic, the name
    -- of the public key is none that the specification reserves for other data, a content that
    -- stores a public key is read as that key, the bytes of a public key decode to it, and a content is
    -- read by decoding the bytes stored under the key's name.
    pub ed25519_lawful :
        KeyLaws (ed25519_enr_key c)
        × IsUnambiguous (ed25519_enr_key c)
        × IsDecoded (ed25519_enr_key c) (ed25519_unambiguous c)
    ed25519_lawful = (ed25519-KeyLaws, ed25519-IsUnambiguous, ed25519-IsDecoded)

  module _ {S V G M : Type 0} (c : Secp256k1 S V G M) (law : Secp256k1Laws c)
      (keccak_law : KeccakLaws keccak) where
    secp256k1_verify-sign :
        (rng : Entropy) (k : S) (msg : Bytes) {sig : Bytes}
        → RustSecp256k1.sign_v4 c rng k msg ≡ ok sig
        → RustSecp256k1.verify_v4 c (c.from_secret_key k) msg sig ≡ true
    unfolding RustSecp256k1.sign_v4 RustSecp256k1.verify_v4
    secp256k1_verify-sign rng k msg e =
        let (m, hashed) = law.message_of_slice_32 (keccak.hash msg) (keccak_law.length-hash msg) in
        ground (
          arith,
          hashed,
          law.verify-sign m k rng,
          law.signature_of_compact-serialize (c.sign_ecdsa_with_noncedata m k rng),
        )

    -- `secp256k1` keys keep the promises of the traits: a public key verifies what its key has
    -- signed, its uncompressed form is computed without a panic, and its name is no other reserved
    -- key.
    pub secp256k1-KeyLaws : KeyLaws (secp256k1_enr_key c)
    unfolding RustSecp256k1.encode_uncompressed
    secp256k1-KeyLaws = record {
      verify-sign = secp256k1_verify-sign;
      encode_uncompressed_total = λ v. (drop 1 (c.serialize_uncompressed v), refl);
      enr_key-IsFree = λ _. secp256k1-IsFree;
    }

    -- A content that stores a `secp256k1` key is read as that key.
    pub secp256k1-IsUnambiguous : IsUnambiguous (secp256k1_enr_key c)
    unfolding RustSecp256k1.enr_to_public RustSecp256k1.decode_public
    secp256k1-IsUnambiguous = record {
      enr_to_public_lem = λ p content h. ground (
        arith,
        rlp_law.data_of-encode_bytes (c.serialize p),
        law.public_key_of_slice-serialize p,
      );
    }

    secp256k1-IsDecoded : IsDecoded (secp256k1_enr_key c) (secp256k1_unambiguous c)
    unfolding RustSecp256k1.enr_to_public RustSecp256k1.decode_public
    secp256k1-IsDecoded = record {
      decode_public-encode = λ p. ground (arith, law.public_key_of_slice-serialize p);
      enr_to_public-decode_public = λ p content raw bytes h d. ground (arith, h, d);
    }

    -- `secp256k1` keys keep the promises of the traits, if the crate keeps its own: a key's
    -- signatures are verified by its public key, no public key makes a node identifier panic, the name
    -- of the public key is none that the specification reserves for other data, a content that
    -- stores a public key is read as that key, the bytes of a public key decode to it, and a content is
    -- read by decoding the bytes stored under the key's name.
    pub secp256k1_lawful :
        KeyLaws (secp256k1_enr_key c)
        × IsUnambiguous (secp256k1_enr_key c)
        × IsDecoded (secp256k1_enr_key c) (secp256k1_unambiguous c)
    secp256k1_lawful = (secp256k1-KeyLaws, secp256k1-IsUnambiguous, secp256k1-IsDecoded)
