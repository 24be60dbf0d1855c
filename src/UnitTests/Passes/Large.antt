-- ===== src/UnitTests/Passes/Large.antt =====
-- The test that decodes a record of more than 300 bytes, over any crates.
use enr.Prelude.{
  ◌≤◌, ◌<◌, ◌≡◌, ◌≢◌, refl, sym, ap, ◌∙◌, [], ◌∷◌, true, some, ok, err, ret, arith, length,
  replicate, ltb,
}
use enr.Bytes.{Bytes, text, id_key, v4}
use enr.Bytes.Laws.{compare_refl}
use enr.BtreeMap
use enr.BtreeMap.Laws.{get-insert_self, get-insert_ne}
use enr.Crates.Rlp.{Rlp, RlpLaws, custom}
use enr.Crates.Hashing.{Keccak256, KeccakLaws}
use enr.Keys.Traits.{Content, Entropy, EnrKey}
use enr.Keys.Laws.{KeyLaws, IsUnambiguous, IsCompact, Stores}
use enr.Enr.Defs.{Enr, max_enr_size}
use enr.Enr.Getters.{id, get}
use enr.Enr.Encode.{encode, rlp_content, append_rlp_content, verify}
use enr.Enr.Commit.{verify-IsSigned}
use enr.Enr.Decode.{read_record, check_frame, decode}
use enr.Enr.RoundTrip.{pair_items, items_of, encode-list_of}
use enr.Enr.Room.{weight, id-get, signature_made}
use enr.Enr.Sign.{sign}
use enr.Enr.Revert.{with_content}
use enr.Builder.{builder, add_public_key, add_value_rlp}
use enr.UnitTests.Codecs.{test_large_enr_decoding_is_rejected}
use enr.UnitTests.Passes.{IsStarted, started, builder-IsLight}
use enr.UnitTests.Passes.Ports.{empty_lem}

module _ ⦃rlp : Rlp⦄ where
  abbrev large_value : Bytes
  large_value = rlp.encode_bytes (replicate max_enr_size 0)

  -- A stored value is part of the pairs.
  weight-insert_ge :
      (key value : Bytes) (content : Content)
      → length value ≤ weight (BtreeMap.insert key value content)
  unfolding BtreeMap.insert pair_items
  weight-insert_ge key value [] = omega arith
  weight-insert_ge key value ((j, w) ∷ content) = ground (arith, weight-insert_ge key value content)

  module _ (law : RlpLaws rlp) where
    length-encode_ge : (e : Enr) → weight e.content < length (encode e)
    length-encode_ge e =
        omega (arith, ap length (encode-list_of e), law.total-lt-length-list_of (items_of e))

    -- Bytes beyond the largest size are refused, before anything is read.
    decode_large :
        ⦃keccak : Keccak256⦄
        → {K P : Type 0} (keys : EnrKey K P) (raw : Bytes) → max_enr_size < length raw
        → decode keys raw ≡ ret (err (custom (text "enr exceeds max size")))
    unfolding decode read_record check_frame
    decode_large keys raw h =
        let big : ltb max_enr_size (length raw) ≡ true = ground (arith, h) in rw (big, decode) refl

    module _ ⦃keccak : Keccak256⦄ {K P : Type 0} (keys : EnrKey K P) (compact : IsCompact keys)
        (keccak_law : KeccakLaws keccak) (key_law : KeyLaws keys) (own : IsUnambiguous keys)
        (key : K)
        (signs : (rng : Entropy) (msg : Bytes)
          → (sig : Bytes) × (keys.sign_v4 rng key msg ≡ ok sig)) where
      -- The record with the large value, signed.
      record IsHuge (rng : Entropy) (e e' : Enr) : Type 0 where
        ran :
            sign keys rng key
              (with_content (BtreeMap.insert (text "large vec") large_value e.content) e)
            ≡ ret (ok e.signature, e')
        verified : verify keys e' ≡ ret true
        large : max_enr_size < length (encode e')

      huge :
          (rng : Entropy) (e : Enr)
          → IsStarted law keys compact keccak_law key_law own key signs builder e
          → text "large vec" ≢ keys.enr_key (keys.public key)
          → (e' : Enr) × IsHuge rng e e'
      unfolding sign add_public_key add_value_rlp id get rlp_content append_rlp_content
      huge rng e s ne =
          let p = keys.public key in
          let content = BtreeMap.insert (text "large vec") large_value e.content in
          let filled = with_content content e in
          let (sig, signed) = signs rng (rlp_content filled) in
          let scheme : id filled ≡ ret (some v4) =
            id-get filled e (
              get-insert_ne (text "large vec") id_key large_value e.content
                (λ i. ground (arith, i)))
            ∙ s.scheme in
          let computed = signature_made law keys compact rng key filled scheme signed in
          let e' : Enr = record filled { signature = sig } in
          let stored : Stores keys p content =
            get-insert_ne (text "large vec") (keys.enr_key p) large_value e.content
              (λ i. ne (sym i))
            ∙ ap (BtreeMap.get (keys.enr_key p)) s.same
            ∙ get-insert_self (keys.enr_key p) _ _ in
          (
            e',
            record {
              ran = rw computed refl;
              verified =
                  verify-IsSigned keys key_law key e'
                    (record { scheme = scheme; rng = rng; signed = signed })
                    (own.enr_to_public_lem p content stored);
              large = omega (
                arith,
                length-encode_ge e',
                weight-insert_ge (text "large vec") large_value e.content,
                law.length-encode_bytes_ge (replicate max_enr_size 0),
              );
            },
          )

      pub test_large_enr_decoding_is_rejected_passes :
          (rng rng' : Entropy)
          → text "large vec" ≢ keys.enr_key (keys.public key)
          → test_large_enr_decoding_is_rejected keys key rng rng' ≡ ret tt
      unfolding test_large_enr_decoding_is_rejected
      test_large_enr_decoding_is_rejected_passes rng rng' ne =
          let (e, builds, s) =
            started law keys compact keccak_law key_law own key signs 0 rng builder (omega arith)
              builder-IsLight in
          let (e', h) = huge rng' e s ne in
          rw
            (
              empty_lem law keys compact keccak_law key_law own key signs rng e builds,
              h.ran,
              h.verified,
              decode_large keys (encode e') h.large,
            )
            (ground (arith, h.large, compare_refl (text "enr exceeds max size")))
