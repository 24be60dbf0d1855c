-- ===== src/UnitTests/Codecs.antt =====
-- The tests of src/lib.rs that build a record, send it and read it.
use enr.Prelude.{ℕ, [], ◌∷◌, Bool, some, Panics, ret, ltb, length, replicate}
use enr.Prelude.{◌==◌ as nat_eq}
use enr.Prelude.Panicking.{◌>>=◌}
use enr.Bytes.{Bytes, text, ◌==◌, v4}
use enr.Crates.Rlp.{Rlp, DecoderError, custom}
use enr.Crates.Hashing.{Keccak256}
use enr.Crates.Text.{Base64}
use enr.Keys.Traits.{Entropy, EnrKey}
use enr.Enr.Defs.{Enr, v4_addr, max_enr_size}
use enr.Enr.Getters.{id, ip4, tcp4}
use enr.Enr.Encode.{encode, public_key, verify, to_base64}
use enr.Enr.Decode.{decode, from_str}
use enr.Enr.Action.{content_insert}
use enr.Enr.Sign.{sign}
use enr.Builder
use enr.Builder.{build, builder, empty}
use enr.UnitTests.Assert.{assert, option_eq, unwrap, unwrap_err, unwrap_on}

module _ ⦃rlp : Rlp⦄ where
  -- The assertions on a record that was decoded: the scheme, the address, the port, the encoded public
  -- key, and the signature.
  unfoldable pub check_decoded :
      {K P : Type 0} → EnrKey K P → Enr → Bytes → ℕ → Bytes → Panics (Unit {0})
  check_decoded keys decoded_enr ip tcp public = do
    scheme ← id decoded_enr
    _ ← assert (option_eq ◌==◌ scheme (some v4))
    address ← ip4 decoded_enr
    _ ← assert (option_eq ◌==◌ address (some ip))
    _ ← assert (option_eq nat_eq (tcp4 decoded_enr) (some tcp))
    key ← public_key keys decoded_enr
    _ ← assert (keys.encode key == public)
    valid ← verify keys decoded_enr
    assert valid

module _ ⦃rlp : Rlp⦄ ⦃keccak : Keccak256⦄ where
  -- `.build(&key).unwrap()`
  abbrev pub built : {K P : Type 0} → EnrKey K P → K → Entropy → Builder.Builder → Panics Enr
  built keys k rng b = do (result, _) ← build keys k rng b; unwrap result

  unfoldable pub test_encode_decode_secp256k1 :
      {K P : Type 0} → EnrKey K P → K → Entropy → Panics (Unit {0})
  unfolding check_decoded
  test_encode_decode_secp256k1 keys key rng = do
    let ip = 127 ∷ 0 ∷ 0 ∷ 1 ∷ []
    enr ← built keys key rng (Builder.tcp4 3000 (Builder.ip4 ip builder))
    decoded ← decode keys (encode enr)
    decoded_enr ← unwrap decoded
    check_decoded keys decoded_enr ip 3000 (keys.encode (keys.public key))

  unfoldable pub test_encode_decode_k256 :
      {K P : Type 0} → EnrKey K P → K → Entropy → Panics (Unit {0})
  unfolding check_decoded
  test_encode_decode_k256 keys key rng = do
    let ip = 127 ∷ 0 ∷ 0 ∷ 1 ∷ []
    enr ← built keys key rng (Builder.tcp4 3000 (Builder.ip4 ip builder))
    decoded ← decode keys (encode enr)
    decoded_enr ← unwrap decoded
    _ ← check_decoded keys decoded_enr ip 3000 (keys.encode (keys.public key))
    public ← public_key keys decoded_enr
    _ ← keys.encode_uncompressed public
    ret tt

  -- The record is decoded for the combined key type.
  unfoldable pub test_encode_decode_ed25519 :
      {K P S V : Type 0} → EnrKey K P → EnrKey S V → K → Entropy → Panics (Unit {0})
  unfolding check_decoded
  test_encode_decode_ed25519 keys combined key rng = do
    let ip = 10 ∷ 0 ∷ 0 ∷ 1 ∷ []
    enr ← built keys key rng (Builder.tcp4 30303 (Builder.ip4 ip builder))
    decoded ← decode combined (encode enr)
    decoded_enr ← unwrap decoded
    check_decoded combined decoded_enr ip 30303 (keys.encode (keys.public key))

  unfoldable pub combined_key_can_decode_all :
      ⦃base64 : Base64⦄
      → {K P E W S V : Type 0} → EnrKey K P
      → EnrKey E W
      → EnrKey S V
      → K
      → Entropy
      → E
      → Entropy
      → Panics (Unit {0})
  combined_key_can_decode_all k256 ed25519 combined key rng ed_key ed_rng = do
    let ip = 192 ∷ 168 ∷ 0 ∷ 1 ∷ []
    enr_secp256k1 ← built k256 key rng (Builder.tcp4 8000 (Builder.ip (v4_addr ip) builder))
    let base64_string_secp256k1 = to_base64 enr_secp256k1
    enr_ed25519 ← built ed25519 ed_key ed_rng (Builder.tcp4 8000 (Builder.ip (v4_addr ip) builder))
    let base64_string_ed25519 = to_base64 enr_ed25519
    first ← from_str k256 base64_string_secp256k1
    _ ← unwrap first
    second ← from_str ed25519 base64_string_ed25519
    _ ← unwrap second
    third ← from_str combined base64_string_secp256k1
    _ ← unwrap third
    fourth ← from_str combined base64_string_ed25519
    _ ← unwrap fourth
    ret tt

  -- `DecoderError::Custom` with that message
  abbrev pub is_custom : Bytes → DecoderError → Bool
  is_custom message (custom other) = message == other
  is_custom message _ = Bool.false

  unfoldable pub test_large_enr_decoding_is_rejected :
      {K P : Type 0} → EnrKey K P → K → Entropy → Entropy → Panics (Unit {0})
  test_large_enr_decoding_is_rejected keys key rng rng' = do
    started ← empty keys key rng
    huge_enr ← unwrap started
    let large_vec_encoded = rlp.encode_bytes (replicate max_enr_size 0)
    (_, huge_enr) ← unwrap_on (content_insert (text "large vec") large_vec_encoded) huge_enr
    (_, huge_enr) ← unwrap_on (sign keys rng' key) huge_enr
    valid ← verify keys huge_enr
    _ ← assert valid
    _ ← assert (ltb max_enr_size (length (encode huge_enr)))
    decoded ← decode keys (encode huge_enr)
    message ← unwrap_err decoded
    assert (is_custom (text "enr exceeds max size") message)
