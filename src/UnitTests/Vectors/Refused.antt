-- ===== src/UnitTests/Vectors/Refused.antt =====
-- The test vectors of src/lib.rs that are refused.
use enr.Prelude.{ℕ, [], ◌∷◌, List, ltb, if◌then◌else◌, Panics, ret}
use enr.Prelude.Panicking.{◌>>=◌}
use enr.Bytes.{Bytes, ◌==◌}
use enr.Crates.Rlp.{Rlp}
use enr.Crates.Hashing.{Keccak256}
use enr.Crates.Text.{Base64, Hex}
use enr.Keys.Traits.{EnrKey}
use enr.Enr.Encode.{public_key, verify}
use enr.Enr.Decode.{decode, from_str}
use enr.UnitTests.Assert.{assert, unwrap, unwrap_err, for_each}
use enr.UnitTests.Ports.{assert_tcp4}
use enr.UnitTests.Vectors.Read.{unhex}
use enr.UnitTests.Vectors.Texts.{
  example_record, example_pubkey, padded_text, padded_error, trailing_text, trailing_error,
  short_record, long_record, leading_zero_text, leading_zero_error,
}
use enr.UnitTests.Vectors.Bounds.{bad_enr_0, bad_enr_30, bad_enr_255, good_enr_30303}

module _ ⦃rlp : Rlp⦄ ⦃keccak : Keccak256⦄ {K P : Type 0} (keys : EnrKey K P) where
  unfoldable pub test_read_enr_rlp_decoding_reject_extra_data : ⦃hex : Hex⦄ → Panics (Unit {0})
  test_read_enr_rlp_decoding_reject_extra_data = do
    valid_record ← unhex example_record
    expected_pubkey ← unhex example_pubkey
    decoded ← decode keys valid_record
    enr ← unwrap decoded
    public ← public_key keys enr
    _ ← assert (keys.encode public == expected_pubkey)
    valid ← verify keys enr
    _ ← assert valid
    invalid_record ← unhex short_record
    refused ← decode keys invalid_record
    _ ← unwrap_err refused
    invalid_record ← unhex long_record
    refused ← decode keys invalid_record
    _ ← unwrap_err refused
    ret tt

  module _ ⦃base64 : Base64⦄ where
    -- A text is refused with this error.
    abbrev refuses : Bytes → Bytes → Panics (Unit {0})
    refuses error text = do
      parsed ← from_str keys text
      message ← unwrap_err parsed
      assert (message == error)

    unfoldable pub test_read_enr_base64url_decoding_enforce_no_pad_no_extra_trailingbits :
        Panics (Unit {0})
    test_read_enr_base64url_decoding_enforce_no_pad_no_extra_trailingbits =
        for_each ((padded_error, padded_text) ∷ (trailing_error, trailing_text) ∷ [])
          (λ (error, text). refuses error text)

    unfoldable pub test_rlp_integer_decoding : Panics (Unit {0})
    test_rlp_integer_decoding = refuses leading_zero_error leading_zero_text

    abbrev vectors : List (ℕ × Bytes)
    vectors = (0, bad_enr_0) ∷ (30, bad_enr_30) ∷ (255, bad_enr_255) ∷ (30303, good_enr_30303) ∷ []

    unfoldable pub bad_enr_round : ℕ → Bytes → Panics (Unit {0})
    unfolding assert_tcp4
    bad_enr_round tcp enr_str = do
      parsed ← from_str keys enr_str
      if ltb tcp 256
          then (do message ← unwrap_err parsed; assert (message == leading_zero_error))
          else (do enr ← unwrap parsed; assert_tcp4 keys enr tcp)

    unfoldable pub test_low_integer_bad_enr : Panics (Unit {0})
    unfolding bad_enr_round
    test_low_integer_bad_enr = for_each vectors (λ (tcp, enr_str). bad_enr_round tcp enr_str)
