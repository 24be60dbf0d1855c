-- ===== src/UnitTests/Passes/Vectors.antt =====
-- What the test vectors depend on: the text alone, where a record is built, and not the prefix, where
-- one is read.
use enr.Prelude.{◌≤◌, ◌≡◌, refl, [], ◌∷◌, Bool, true, false, not, Option, some, ok, ret, arith}
use enr.Prelude.Panicking.{◌>>=◌}
use enr.Bytes.{Bytes, ◌==◌, compare_bytes}
use enr.Crates.Rlp.{Rlp, RlpLaws}
use enr.Crates.Hashing.{Keccak256, KeccakLaws}
use enr.Crates.Text.{Base64, Base64Laws, Hex}
use enr.Keys.Traits.{Entropy, EnrKey}
use enr.Keys.Laws.{KeyLaws, IsUnambiguous, IsCompact}
use enr.Enr.Defs.{Enr, max_enr_size}
use enr.Enr.Base64.{from_str-to_base64}
use enr.Enr.Encode.{to_base64, size}
use enr.Enr.Decode.{from_str}
use enr.Enr.Room.{size_le}
use enr.Builder
use enr.Builder.{builder}
use enr.UnitTests.Assert.{assert}
use enr.UnitTests.Codecs.{built}
use enr.UnitTests.Vectors.Read.{test_read_enr_prefix, test_read_enr_no_prefix}
use enr.UnitTests.Vectors.Changed.{
  test_secp256k1_sign_ecdsa_with_mock_noncedata, test_secp256k1_sign_ecdsa_with_noncedata,
}
use enr.UnitTests.Vectors.Bounds.{key_hex, mock_enr_base64}
use enr.UnitTests.Passes.{started, builder-IsLight, udp4-IsLight, ip4-IsLight}

assert_last : (t : Bool) → (assert t >>= λ _. ret tt) ≡ assert t
assert_last true = refl
assert_last false = refl

module _ ⦃rlp : Rlp⦄ ⦃keccak : Keccak256⦄ ⦃base64 : Base64⦄ {K P : Type 0} (keys : EnrKey K P) where
  -- The text is read alike with its prefix and without.
  pub test_read_enr_prefix-test_read_enr_no_prefix :
      test_read_enr_prefix keys ≡ test_read_enr_no_prefix keys
  unfolding test_read_enr_prefix test_read_enr_no_prefix from_str compare_bytes
  test_read_enr_prefix-test_read_enr_no_prefix = refl

  -- A record that the key builds is read back and verifies: of the two tests that sign the example of
  -- the specification, one passes exactly if the text is the expected one, and the other exactly if it
  -- is not.
  pub example_signed_lem :
      ⦃hex : Hex⦄ (law : RlpLaws rlp) (keccak_law : KeccakLaws keccak)
      (text_law : Base64Laws base64) (compact : IsCompact keys) (key_law : KeyLaws keys)
      (own : IsUnambiguous keys) (key : K)
      (signs : (rng : Entropy) (msg : Bytes) → (sig : Bytes) × (keys.sign_v4 rng key msg ≡ ok sig))
      (from_slice : Bytes → Option K) (key_data : Bytes) (rng : Entropy)
      → hex.decode key_hex ≡ ok key_data
      → from_slice key_data ≡ some key
      → (e : Enr) × (built keys key rng
            (Builder.udp4 30303 (Builder.ip4 (127 ∷ 0 ∷ 0 ∷ 1 ∷ []) builder))
          ≡ ret e)
        × (test_secp256k1_sign_ecdsa_with_mock_noncedata keys from_slice rng
            ≡ assert (to_base64 e == mock_enr_base64))
        × (test_secp256k1_sign_ecdsa_with_noncedata keys from_slice rng
            ≡ assert (not (to_base64 e == mock_enr_base64)))
  unfolding test_secp256k1_sign_ecdsa_with_mock_noncedata test_secp256k1_sign_ecdsa_with_noncedata
  example_signed_lem law keccak_law text_law compact key_law own key signs from_slice key_data rng
        decoded is_key =
      let ip = 127 ∷ 0 ∷ 0 ∷ 1 ∷ [] in
      let b = Builder.udp4 30303 (Builder.ip4 ip builder) in
      let light =
        udp4-IsLight law 30303 12 _ (omega arith) (ip4-IsLight law ip 0 _ refl builder-IsLight) in
      let (e, builds, s) =
        started law keys compact keccak_law key_law own key signs 30 rng b (omega arith) light in
      let small : size e ≤ max_enr_size = omega (
        arith,
        s.light,
        light.light,
        size_le law e s.short (omega (arith, s.counted)) (omega (arith, s.light, light.light)),
      ) in
      let read = from_str-to_base64 law text_law keys e s.owned.valid small in
      let expected = to_base64 e == mock_enr_base64 in
      (
        e,
        builds,
        rw (decoded, is_key, builds, read, s.owned.valid.verified) (assert_last expected),
        rw (decoded, is_key, builds, read, s.owned.valid.verified) (assert_last (not expected)),
      )
