-- ===== src/Enr/MixedKeys/Decoding.antt =====
-- Records of either kind of key, read for the combined key type.
use enr.Prelude.{
  ◌≤◌, ◌≡◌, ◌∙◌, ap, refl, Bool, true, false, none, some, if◌then◌else◌, Panics, ok, err, ret,
}
use enr.Prelude.Panicking.{◌>>=◌}
use enr.Bytes.{Bytes, ◌==◌, v4}
use enr.Crates.Rlp.{Rlp, RlpLaws, DecoderError}
use enr.Crates.Hashing.{Keccak256}
use enr.NodeId.{of_public_key}
use enr.Keys.Traits.{EnrKey}
use enr.Keys.Combined
use enr.Keys.Combined.{CombinedPublicKey, combined_key}
use enr.Keys.Laws.Both.{combined-enr_to_public_secp256k1}
use enr.Enr.Defs.{Enr, max_enr_size}
use enr.Enr.Encode.{encode, public_key, verify, rlp_content, size}
use enr.Enr.Getters.{id}
use enr.Enr.Decode.{decode}
use enr.Enr.RoundTrip.{decode-encode}
use enr.Enr.Valid.{IsValid}

-- A signature is checked alike by keys that read the same public key and verify alike.
verify_alike :
    ⦃rlp : Rlp⦄
    → {K P L Q : Type 0} (keys : EnrKey K P) (both : EnrKey L Q) (p : P) (q : Q) (r : Enr)
    → keys.enr_to_public r.content ≡ ok p
    → both.enr_to_public r.content ≡ ok q
    → both.verify_v4 q ≡ keys.verify_v4 p
    → verify both r ≡ verify keys r
unfolding verify public_key
verify_alike keys both p q r known known' same =
    rw (known, known')
      (ap
        (λ (checks : Bytes → Bytes → Bool). id r >>= λ scheme. elim scheme as (λ _. Panics Bool) [
          | some s ↦ if s == v4 then ret (checks (rlp_content r) r.signature) else ret false
          | none ↦ ret false
        ])
        same)

module _ ⦃rlp : Rlp⦄ ⦃keccak : Keccak256⦄ {S E V W : Type 0} (k : EnrKey S V) (e : EnrKey E W) where
  -- A valid record of either kind of key, which the combined key type reads as that kind: one of the
  -- second kind has no key that the first kind reads.
  abbrev pub IsValidOf : CombinedPublicKey V W → Enr → Type 0
  IsValidOf (CombinedPublicKey.secp256k1 p) r = (v : IsValid k r) × (v.public ≡ p)
  IsValidOf (CombinedPublicKey.ed25519 p) r =
      (v : IsValid e r) × (v.public ≡ p) × (x : DecoderError) × (k.enr_to_public r.content ≡ err x)

  pub combined-IsValid :
      (q : CombinedPublicKey V W) (r : Enr)
      → IsValidOf q r
      → (v : IsValid (combined_key k e) r) × (v.public ≡ q)
  unfolding of_public_key Combined.encode_uncompressed Combined.verify_v4 Combined.enr_to_public
  combined-IsValid (CombinedPublicKey.secp256k1 p) r (v, same) =
      let known = combined-enr_to_public_secp256k1 k e r.content v.public v.known in
      (
        record {
          seq_range = v.seq_range;
          sound = v.sound;
          public = CombinedPublicKey.secp256k1 v.public;
          known = known;
          identified = v.identified;
          verified =
              verify_alike k (combined_key k e) v.public (CombinedPublicKey.secp256k1 v.public) r
                v.known known refl
              ∙ v.verified;
        },
        ap CombinedPublicKey.secp256k1 same,
      )
  combined-IsValid (CombinedPublicKey.ed25519 p) r (v, same, x, hidden) =
      let known : Combined.enr_to_public k e r.content ≡ ok (CombinedPublicKey.ed25519 v.public) =
        rw (hidden, v.known) refl in
      (
        record {
          seq_range = v.seq_range;
          sound = v.sound;
          public = CombinedPublicKey.ed25519 v.public;
          known = known;
          identified = v.identified;
          verified =
              verify_alike e (combined_key k e) v.public (CombinedPublicKey.ed25519 v.public) r
                v.known known refl
              ∙ v.verified;
        },
        ap CombinedPublicKey.ed25519 same,
      )

  -- For the combined key type, the encoding of a valid record of at most 300 bytes is read back, the
  -- record's public key is the signer's, and its signature verifies: for a record of the first kind of
  -- key always, and for one of the second kind if the first kind reads no key from it.
  pub decode-encode_combined :
      (law : RlpLaws rlp) (q : CombinedPublicKey V W) (r : Enr)
      → IsValidOf q r
      → size r ≤ max_enr_size
      → (decode (combined_key k e) (encode r) ≡ ret (ok r))
        × (public_key (combined_key k e) r ≡ ret q)
        × (verify (combined_key k e) r ≡ ret true)
  unfolding public_key
  decode-encode_combined law q r h small =
      let (v, same) = combined-IsValid q r h in
      (decode-encode law (combined_key k e) r v small, rw (v.known, same) refl, v.verified)
