-- ===== src/Enr/MixedKeys.antt =====
-- A record of a `secp256k1` key that an `ed25519` key updates, both of the combined key type.
pub mod Decoding
use enr.Prelude.{◌≡◌, ◌≢◌, refl, ◌∙◌, ap, Option, ok, ret, arith}
use enr.Bytes.{Bytes, secp256k1_key, ed25519_key}
use enr.BtreeMap
use enr.BtreeMap.Laws.{IsSorted, get-insert_ne}
use enr.Crates.Rlp.{Rlp}
use enr.Crates.Hashing.{Keccak256}
use enr.NodeId.{of_public_key}
use enr.Keys.Traits.{Content, Entropy, EnrKey}
use enr.Keys.K256
use enr.Keys.K256.{K256, k256_key}
use enr.Keys.Ed25519.{Ed25519, ed25519_enr_key}
use enr.Keys.Combined
use enr.Keys.Combined.{CombinedKey, CombinedPublicKey, combined_key}
use enr.Keys.Laws.Both.{combined-enr_to_public_secp256k1}
use enr.Enr.Defs.{Enr}
use enr.Enr.Encode.{public_key}
use enr.Enr.Setters.{insert_raw_rlp}
use enr.Enr.Update.{insert_raw_rlp-IsStored}

module _ ⦃rlp : Rlp⦄ ⦃keccak : Keccak256⦄ {S V G S' V' G' : Type 0} (c : K256 S V G)
    (d : Ed25519 S' V' G') where
  -- The `secp256k1` key is read under its name only.
  pub enr_to_public-eq :
      (m n : Content)
      → BtreeMap.get secp256k1_key m ≡ BtreeMap.get secp256k1_key n
      → K256.enr_to_public c m ≡ K256.enr_to_public c n
  unfolding K256.enr_to_public
  enr_to_public-eq m n same = rw same refl

  -- A successful insertion by an `ed25519` key of the combined key type, under another key than
  -- `secp256k1`, into a record that stores a readable `secp256k1` key and whose keys ascend, leaves a
  -- record that is named after the `ed25519` key, but whose public key is still the `secp256k1` key.
  pub insert_raw_rlp-public_key_mixed :
      {L W : Type 0} (check : EnrKey L W) (key value : Bytes) (s : S') (rng : Entropy) (e e' : Enr)
      {previous : Option Bytes} (p : V)
      → IsSorted e.content
      → secp256k1_key ≢ key
      → K256.enr_to_public c e.content ≡ ok p
      → insert_raw_rlp
          (combined_key (k256_key c) (ed25519_enr_key d))
          check
          key
          value
          (CombinedKey.ed25519 s)
          rng
          e
        ≡ ret (ok previous, e')
      → (public_key (combined_key (k256_key c) (ed25519_enr_key d)) e'
          ≡ ret (CombinedPublicKey.secp256k1 p))
        × (of_public_key (ed25519_enr_key d).public_key ((ed25519_enr_key d).public s)
            ≡ ret e'.node_id)
  unfolding public_key Combined.public Combined.enr_key of_public_key Combined.encode_uncompressed
  insert_raw_rlp-public_key_mixed check key value s rng e e' p sorted other stored h =
      let both = combined_key (k256_key c) (ed25519_enr_key d) in
      let done =
        (insert_raw_rlp-IsStored both check key value (CombinedKey.ed25519 s) rng e e' sorted
          h).committed in
      let unmoved : BtreeMap.get secp256k1_key e'.content ≡ BtreeMap.get secp256k1_key e.content =
        ap (BtreeMap.get secp256k1_key) done.same
        ∙ get-insert_ne ed25519_key secp256k1_key _ _ (λ i. ground arith)
        ∙ get-insert_ne key secp256k1_key value e.content other in
      let known = enr_to_public-eq e'.content e.content unmoved ∙ stored in
      (
        rw (combined-enr_to_public_secp256k1 (k256_key c) (ed25519_enr_key d) e'.content p known)
            refl,
        done.identified,
      )
