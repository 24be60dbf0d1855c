-- ===== src/UnitTests/Vectors/Changed.antt =====
-- The test vectors of src/lib.rs that are built or changed, and that of tests/ecdsa/rust_secp256k1.rs.
use enr.Prelude.{◌-◌, ◌^◌, [], ◌∷◌, Bool, true, false, not, Option, Result, err, Panics}
use enr.Prelude.{◌==◌ as nat_eq}
use enr.Prelude.Panicking.{◌>>=◌}
use enr.Bytes.{Bytes, text, ◌==◌}
use enr.Crates.Rlp.{Rlp}
use enr.Crates.Hashing.{Keccak256}
use enr.Crates.Text.{Base64, Hex}
use enr.Error.{EnrError, exceeds_max_size}
use enr.Keys.Traits.{Entropy, EnrKey}
use enr.Enr.Defs.{Enr}
use enr.Enr.Getters.{seq, udp4}
use enr.Enr.Encode.{verify, enr_eq, to_base64}
use enr.Enr.Decode.{from_str}
use enr.Enr.Format.{clone}
use enr.Enr.Setters.{set_udp4}
use enr.Enr.Sign.{set_seq}
use enr.Builder
use enr.Builder.{builder}
use enr.UnitTests.Assert.{assert, unwrap, unwrap_err, unwrap_on, unwrap_some, contains}
use enr.UnitTests.Codecs.{built}
use enr.UnitTests.Vectors.Read.{unhex}
use enr.UnitTests.Vectors.Bounds.{large_enr, too_large_enr, key_hex, mock_enr_base64}

-- `Err(EnrError::ExceedsMaxSize)`
abbrev is_too_large : {A : Type 0} → Result EnrError A → Bool
is_too_large (err exceeds_max_size) = true
is_too_large _ = false

module _ ⦃rlp : Rlp⦄ ⦃keccak : Keccak256⦄ ⦃base64 : Base64⦄ {K P : Type 0} (keys : EnrKey K P) where
  unfoldable pub test_set_seq : K → Entropy → Entropy → Panics (Unit {0})
  test_set_seq key rng rng' = do
    parsed ← from_str keys large_enr
    record_read ← unwrap parsed
    let enr_bkp = clone record_read
    (result, changed) ← set_seq keys (2 ^ 64 - 1) key rng record_read
    _ ← assert (is_too_large result)
    _ ← assert (enr_eq changed enr_bkp)
    (_, changed) ← unwrap_on (set_seq keys 30 key rng') changed
    assert (nat_eq (seq changed) 30)

  -- A key is read by `from_slice` of its crate.
  module _ ⦃hex : Hex⦄ (from_slice : Bytes → Option K) where
    unfoldable pub test_read_enr_reject_too_large_record :
        {S V : Type 0} → EnrKey S V → Entropy → Panics (Unit {0})
    test_read_enr_reject_too_large_record k256 rng = do
      parsed ← from_str keys large_enr
      record_read ← unwrap parsed
      key_data ← unhex key_hex
      key ← unwrap_some (from_slice key_data)
      udp ← unwrap_some (udp4 record_read)
      _ ← unwrap_on (set_udp4 keys k256 udp key rng) record_read
      refused ← from_str keys too_large_enr
      message ← unwrap_err refused
      assert (contains (text "enr exceeds max size") message)

    -- The record of the specification's example, signed with the nonce of `rng`.
    abbrev pub example_signed : Entropy → Panics Enr
    example_signed rng = do
      key_data ← unhex key_hex
      key ← unwrap_some (from_slice key_data)
      let ip = 127 ∷ 0 ∷ 0 ∷ 1 ∷ []
      built keys key rng (Builder.udp4 30303 (Builder.ip4 ip builder))

    -- `rng` is the mocked generator's.
    unfoldable pub test_secp256k1_sign_ecdsa_with_mock_noncedata : Entropy → Panics (Unit {0})
    test_secp256k1_sign_ecdsa_with_mock_noncedata rng = do
      enr ← example_signed rng
      let enr_base64 = to_base64 enr
      _ ← assert (enr_base64 == mock_enr_base64)
      parsed ← from_str keys enr_base64
      enr ← unwrap parsed
      valid ← verify keys enr
      assert valid

    -- `rng` is the system's.
    unfoldable pub test_secp256k1_sign_ecdsa_with_noncedata : Entropy → Panics (Unit {0})
    test_secp256k1_sign_ecdsa_with_noncedata rng = do
      enr ← example_signed rng
      let enr_base64 = to_base64 enr
      _ ← assert (not (enr_base64 == mock_enr_base64))
      parsed ← from_str keys enr_base64
      enr ← unwrap parsed
      valid ← verify keys enr
      assert valid
