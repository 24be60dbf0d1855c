-- ===== src/UnitTests/Vectors/Read.antt =====
-- The test vectors of src/lib.rs that are read.
use enr.Prelude.{[], ◌∷◌, none, some, Panics, ret}
use enr.Prelude.{◌==◌ as nat_eq}
use enr.Prelude.Panicking.{◌>>=◌}
use enr.Bytes.{Bytes, ◌==◌, v4}
use enr.Crates.Rlp.{Rlp}
use enr.Crates.Hashing.{Keccak256}
use enr.Crates.Text.{Base64, Hex}
use enr.Keys.Traits.{EnrKey}
use enr.NodeId.{raw}
use enr.Enr.Getters.{seq, node_id, signature, id, ip4, ip6, tcp4, tcp6, udp4, udp6}
use enr.Enr.Encode.{public_key, verify}
use enr.Enr.Decode.{decode, from_str}
use enr.UnitTests.Assert.{assert, option_eq, unwrap}
use enr.UnitTests.Vectors.Texts.{
  example_record, example_text, example_signature, example_pubkey, example_node_id, list_text,
  list_signature, list_pubkey,
}
use enr.UnitTests.Vectors.Bounds.{bare_text, prefixed_text}

-- `hex::decode(…).unwrap()`
abbrev pub unhex : ⦃hex : Hex⦄ → Bytes → Panics Bytes
unhex ⦃hex⦄ digits = unwrap (hex.decode digits)

module _ ⦃rlp : Rlp⦄ ⦃keccak : Keccak256⦄ ⦃base64 : Base64⦄ ⦃hex : Hex⦄ {K P : Type 0}
    (keys : EnrKey K P) where
  unfoldable pub test_vector_k256 : Panics (Unit {0})
  test_vector_k256 = do
    valid_record ← unhex example_record
    expected_signature ← unhex example_signature
    expected_pubkey ← unhex example_pubkey
    decoded ← decode keys valid_record
    enr ← unwrap decoded
    public ← public_key keys enr
    address ← ip4 enr
    _ ← assert (option_eq ◌==◌ address (some (127 ∷ 0 ∷ 0 ∷ 1 ∷ [])))
    scheme ← id enr
    _ ← assert (option_eq ◌==◌ scheme (some v4))
    _ ← assert (option_eq nat_eq (udp4 enr) (some 30303))
    _ ← assert (option_eq nat_eq (tcp4 enr) none)
    _ ← assert (signature enr == expected_signature)
    _ ← assert (keys.encode public == expected_pubkey)
    valid ← verify keys enr
    assert valid

  unfoldable pub test_vector_2 : Panics (Unit {0})
  test_vector_2 = do
    expected_signature ← unhex example_signature
    expected_pubkey ← unhex example_pubkey
    expected_node_id ← unhex example_node_id
    parsed ← from_str keys example_text
    enr ← unwrap parsed
    public ← public_key keys enr
    address ← ip4 enr
    _ ← assert (option_eq ◌==◌ address (some (127 ∷ 0 ∷ 0 ∷ 1 ∷ [])))
    address6 ← ip6 enr
    _ ← assert (option_eq ◌==◌ address6 none)
    scheme ← id enr
    _ ← assert (option_eq ◌==◌ scheme (some v4))
    _ ← assert (option_eq nat_eq (udp4 enr) (some 30303))
    _ ← assert (option_eq nat_eq (udp6 enr) none)
    _ ← assert (option_eq nat_eq (tcp4 enr) none)
    _ ← assert (option_eq nat_eq (tcp6 enr) none)
    _ ← assert (signature enr == expected_signature)
    _ ← assert (keys.encode public == expected_pubkey)
    _ ← assert (raw (node_id enr) == expected_node_id)
    valid ← verify keys enr
    assert valid

  -- The same statements, of a test with the key type spelled out.
  unfoldable pub test_vector_2_k256 : Panics (Unit {0})
  unfolding test_vector_2
  test_vector_2_k256 = test_vector_2

  -- The values in the content are RLP lists.
  unfoldable pub test_rlp_list_value : Panics (Unit {0})
  test_rlp_list_value = do
    expected_signature ← unhex list_signature
    expected_pubkey ← unhex list_pubkey
    parsed ← from_str keys list_text
    enr ← unwrap parsed
    address ← ip4 enr
    _ ← assert (option_eq ◌==◌ address (some (14 ∷ 161 ∷ 38 ∷ 107 ∷ [])))
    scheme ← id enr
    _ ← assert (option_eq ◌==◌ scheme (some v4))
    _ ← assert (option_eq nat_eq (udp4 enr) (some 30503))
    _ ← assert (option_eq nat_eq (tcp4 enr) (some 30503))
    _ ← assert (nat_eq (seq enr) 40)
    _ ← assert (signature enr == expected_signature)
    public ← public_key keys enr
    _ ← assert (keys.encode public == expected_pubkey)
    valid ← verify keys enr
    assert valid

module _ ⦃rlp : Rlp⦄ ⦃keccak : Keccak256⦄ ⦃base64 : Base64⦄ {K P : Type 0} (keys : EnrKey K P) where
  unfoldable pub test_read_enr_no_prefix : Panics (Unit {0})
  test_read_enr_no_prefix = do parsed ← from_str keys bare_text; _ ← unwrap parsed; ret tt

  unfoldable pub test_read_enr_prefix : Panics (Unit {0})
  test_read_enr_prefix = do parsed ← from_str keys prefixed_text; _ ← unwrap parsed; ret tt
