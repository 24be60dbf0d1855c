-- ===== src/Enr/Reads/PublicKey.antt =====
-- `set_public_key`.
use enr.Prelude.{◌≡◌, refl, Bool-cases, inl, inr, err, ret, length, ltb}
use enr.Bytes.{Bytes, text, compare_bytes, secp256k1_key}
use enr.Crates.Rlp.{Rlp, RlpLaws, DecoderError, custom, rlp_expected_to_be_list}
use enr.Crates.Hashing.{Keccak256}
use enr.Error.{invalid_rlp_data}
use enr.Keys.Traits.{Entropy, EnrKey}
use enr.Enr.Defs.{Enr, max_enr_size}
use enr.Enr.Decode.{decode, read_record, check_frame, is_keyof_u16}
use enr.Enr.Reserved.{check_spec_reserved_keys}
use enr.Enr.Setters.{insert, insert_raw_rlp, set_public_key}

module _ ⦃rlp : Rlp⦄ ⦃keccak : Keccak256⦄ {K P S V : Type 0} (keys : EnrKey K P) (k256 : EnrKey S V)
    (law : RlpLaws rlp) where
  -- A byte string is no record.
  decode_string :
      (b : Bytes) → (x : DecoderError) × (decode k256 (rlp.encode_bytes b) ≡ ret (err x))
  unfolding decode read_record check_frame
  decode_string b = elim (Bool-cases (ltb max_enr_size (length (rlp.encode_bytes b)))) [
    | inl big ↦ (custom (text "enr exceeds max size"), rw (big, decode) refl)
    | inr fits ↦ elim (Bool-cases (rlp.is_list (rlp.encode_bytes b))) [
      | inl list ↦ absurd (law.is_list-encode_bytes b list)
      | inr string ↦ (rlp_expected_to_be_list, rw (fits, decode) (rw string refl))
    ]
  ]

  -- A public key whose name is `secp256k1` cannot be set: `set_public_key` refuses every one, and
  -- leaves the record as it was.
  pub set_public_key_refused :
      (p : P) (k : K) (rng : Entropy) (e : Enr)
      → keys.enr_key p ≡ secp256k1_key
      → (s : Bytes) × (set_public_key keys k256 p k rng e ≡ ret (err (invalid_rlp_data s), e))
  unfolding set_public_key insert insert_raw_rlp check_spec_reserved_keys is_keyof_u16 compare_bytes
  set_public_key_refused p k rng e named =
      let (x, refused) = decode_string (keys.encode p) in
      (rlp.to_string x, rw named (rw refused refl))
