-- ===== src/UnitTests/Passes/Mixed.antt =====
-- The tests that read a record of either kind of key for the combined key type,
-- over any crates.
use enr.Prelude.{ℕ, ◌≤◌, ◌≡◌, ◌≢◌, refl, [], ◌∷◌, none, ok, err, ret, arith}
use enr.Bytes.{Bytes, compare_bytes, secp256k1_key}
use enr.BtreeMap
use enr.Crates.Rlp.{Rlp, RlpLaws, DecoderError}
use enr.Crates.Hashing.{Keccak256, KeccakLaws}
use enr.Crates.Text.{Base64, Base64Laws}
use enr.Keys.Traits.{Content, Entropy, EnrKey}
use enr.Keys.Combined
use enr.Keys.Combined.{CombinedPublicKey, combined_key}
use enr.Keys.Laws.{KeyLaws, IsUnambiguous, IsCompact}
use enr.Enr.Defs.{Enr, max_enr_size}
use enr.Enr.Base64.{from_str-to_base64}
use enr.Enr.Encode.{public_key, to_base64, size}
use enr.Enr.Decode.{from_str}
use enr.Enr.MixedKeys.Decoding.{IsValidOf, combined-IsValid, decode-encode_combined}
use enr.Builder
use enr.Builder.{builder, default, add_value, add_value_rlp}
use enr.UnitTests.Codecs.{test_encode_decode_ed25519, combined_key_can_decode_all}
use enr.UnitTests.Passes.{kept}
use enr.UnitTests.Passes.Codecs.{IsSent, sent, check_decoded_passes}

module _ ⦃rlp : Rlp⦄ (law : RlpLaws rlp) ⦃keccak : Keccak256⦄ (keccak_law : KeccakLaws keccak)
    {S E V W : Type 0} (k : EnrKey S V) (e : EnrKey E W) (compact : IsCompact e)
    (key_law : KeyLaws e) (own : IsUnambiguous e) (key : E)
    (signs : (rng : Entropy) (msg : Bytes) → (sig : Bytes) × (e.sign_v4 rng key msg ≡ ok sig))
    (unread : (content : Content)
      → BtreeMap.get secp256k1_key content ≡ none
      → (x : DecoderError) × (k.enr_to_public content ≡ err x))
    (apart : secp256k1_key ≢ e.enr_key (e.public key)) where
  -- A record that is sent by a key of the second kind.
  sent-IsValidOf :
      (ip : Bytes) (tcp : ℕ) (r : Enr)
      → IsSent law e compact keccak_law key_law own key signs ip tcp r
      → IsValidOf k e (CombinedPublicKey.ed25519 (e.public key)) r
  unfolding Builder.tcp4 Builder.ip4 builder default add_value add_value_rlp BtreeMap.insert
      BtreeMap.get compare_bytes public_key
  sent-IsValidOf ip tcp r s =
      let b = Builder.tcp4 tcp (Builder.ip4 ip builder) in
      let absent : BtreeMap.get secp256k1_key r.content ≡ none =
        kept law e compact keccak_law key_law own key signs secp256k1_key b r
          (λ i. ground (arith, i)) apart s.start in
      let (x, hidden) = unread r.content absent in
      let o = s.start.owned in (o.valid, ground (arith, o.owner, o.valid.known), x, hidden)

  pub test_encode_decode_ed25519_passes :
      (rng : Entropy) → test_encode_decode_ed25519 e (combined_key k e) key rng ≡ ret tt
  unfolding test_encode_decode_ed25519 Combined.encode
  test_encode_decode_ed25519_passes rng =
      let ip = 10 ∷ 0 ∷ 0 ∷ 1 ∷ [] in
      let (r, builds, s) =
        sent law e compact keccak_law key_law own key signs ip 30303 rng refl (omega arith) in
      let (read, owner, valid) =
        decode-encode_combined k e law (CombinedPublicKey.ed25519 (e.public key)) r
          (sent-IsValidOf ip 30303 r s) s.small in
      let checked =
        check_decoded_passes law (combined_key k e) r ip 30303
          (CombinedPublicKey.ed25519 (e.public key)) s.start.scheme s.address s.port owner valid in
      rw (builds, read) checked

  module _ ⦃base64 : Base64⦄ (text_law : Base64Laws base64) (k_compact : IsCompact k)
      (k_law : KeyLaws k) (k_own : IsUnambiguous k) (k_key : S)
      (k_signs : (rng : Entropy) (msg : Bytes)
        → (sig : Bytes) × (k.sign_v4 rng k_key msg ≡ ok sig)) where
    read_combined :
        (q : CombinedPublicKey V W) (r : Enr)
        → IsValidOf k e q r
        → size r ≤ max_enr_size
        → from_str (combined_key k e) (to_base64 r) ≡ ret (ok r)
    read_combined q r h =
        from_str-to_base64 law text_law (combined_key k e) r (combined-IsValid k e q r h).0

    pub combined_key_can_decode_all_passes :
        (rng rng' : Entropy)
        → combined_key_can_decode_all k e (combined_key k e) k_key rng key rng' ≡ ret tt
    unfolding combined_key_can_decode_all Builder.ip
    combined_key_can_decode_all_passes rng rng' =
        let ip = 192 ∷ 168 ∷ 0 ∷ 1 ∷ [] in
        let (r, builds, s) =
          sent law k k_compact keccak_law k_law k_own k_key k_signs ip 8000 rng refl
            (omega arith) in
        let (r', builds', s') =
          sent law e compact keccak_law key_law own key signs ip 8000 rng' refl (omega arith) in
        let v = s.start.owned.valid in
        let v' = s'.start.owned.valid in
        rw
          (
            builds,
            builds',
            from_str-to_base64 law text_law k r v s.small,
            from_str-to_base64 law text_law e r' v' s'.small,
            read_combined (CombinedPublicKey.secp256k1 v.public) r (v, refl) s.small,
            read_combined (CombinedPublicKey.ed25519 (e.public key)) r'
                (sent-IsValidOf ip 8000 r' s') s'.small,
          )
          refl
