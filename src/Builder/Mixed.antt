-- ===== src/Builder/Mixed.antt =====
-- A builder that stores a `secp256k1` key, built by an `ed25519` key of the combined key type.
use enr.Prelude.{◌≡◌, refl, ◌∙◌, ap, ok, ret, arith}
use enr.Bytes.{secp256k1_key, ed25519_key, id_key}
use enr.BtreeMap
use enr.BtreeMap.Laws.{get-insert_ne}
use enr.Crates.Rlp.{Rlp}
use enr.Crates.Hashing.{Keccak256}
use enr.NodeId.{of_public_key}
use enr.Keys.Traits.{Entropy}
use enr.Keys.K256
use enr.Keys.K256.{K256, k256_key}
use enr.Keys.Ed25519.{Ed25519, ed25519_enr_key}
use enr.Keys.Combined
use enr.Keys.Combined.{CombinedKey, CombinedPublicKey, combined_key}
use enr.Keys.Laws.Both.{combined-enr_to_public_secp256k1}
use enr.Enr.Defs.{Enr}
use enr.Enr.Encode.{public_key}
use enr.Enr.MixedKeys.{enr_to_public-eq}
use enr.Builder.Defs.{Builder, build, add_public_key, add_value_rlp}
use enr.Builder.Finish.{build-IsFinished}

module _ ⦃rlp : Rlp⦄ ⦃keccak : Keccak256⦄ {S V G S' V' G' : Type 0} (c : K256 S V G)
    (d : Ed25519 S' V' G') where
  -- A builder that stores a readable `secp256k1` key, and from which an `ed25519` key of the combined
  -- key type builds a record, gives a record that is named by the `ed25519` key, but whose public key
  -- is the `secp256k1` key.
  pub build-public_key_mixed :
      (s : S') (rng : Entropy) (b b₁ : Builder) (e : Enr) (p : V)
      → K256.enr_to_public c b.content ≡ ok p
      → build (combined_key (k256_key c) (ed25519_enr_key d)) (CombinedKey.ed25519 s) rng b
        ≡ ret (ok e, b₁)
      → (public_key (combined_key (k256_key c) (ed25519_enr_key d)) e
          ≡ ret (CombinedPublicKey.secp256k1 p))
        × (of_public_key (ed25519_enr_key d).public_key ((ed25519_enr_key d).public s)
            ≡ ret e.node_id)
  unfolding public_key Combined.public Combined.enr_key of_public_key Combined.encode_uncompressed
      add_public_key add_value_rlp
  build-public_key_mixed s rng b b₁ e p stored h =
      let both = combined_key (k256_key c) (ed25519_enr_key d) in
      let (_, _, done) = build-IsFinished both (CombinedKey.ed25519 s) rng b b₁ e h in
      let unmoved : BtreeMap.get secp256k1_key e.content ≡ BtreeMap.get secp256k1_key b.content =
        ap (BtreeMap.get secp256k1_key) done.same
        ∙ get-insert_ne ed25519_key secp256k1_key _ _ (λ i. ground arith)
        ∙ get-insert_ne id_key secp256k1_key _ b.content (λ i. ground arith) in
      let known = enr_to_public-eq c d e.content b.content unmoved ∙ stored in
      (
        rw (combined-enr_to_public_secp256k1 (k256_key c) (ed25519_enr_key d) e.content p known)
            refl,
        done.identified,
      )
