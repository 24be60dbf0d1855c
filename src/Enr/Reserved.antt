-- ===== src/Enr/Reserved.antt =====
-- `check_spec_reserved_keys`: which raw values the reserved keys take. Under `secp256k1` a whole
-- record for `k256` keys is asked for.
use enr.Prelude.{Bool, not, Result, ok, err, Panics, ret, panic, length, if◌then◌else◌}
use enr.Prelude.{◌==◌ as nat_eq}
use enr.Prelude.Fallible.{◌>>=◌, map_err}
use enr.Bytes.{Bytes, text, ◌==◌, id_key, ip_key, ip6_key, secp256k1_key, v4}
use enr.Crates.Rlp.{Rlp, DecoderError}
use enr.Crates.Hashing.{Keccak256}
use enr.Error.{EnrError, invalid_rlp_data, unsupported_identity_scheme}
use enr.Keys.Traits.{EnrKey}
use enr.Enr.Decode.{is_keyof_u16, decode}

abbrev pub refuse_if : Bool → EnrError → Result EnrError (Unit {0})
refuse_if b e = if b then err e else ok tt

module _ ⦃rlp : Rlp⦄ where
  -- `map_err(|err| EnrError::InvalidRlpData(err.to_string()))`
  abbrev pub or_invalid : {A : Type 0} → Result DecoderError A → Result EnrError A
  or_invalid r = map_err (λ e. invalid_rlp_data (rlp.to_string e)) r

  unfoldable pub check_id : Bytes → Result EnrError (Unit {0})
  check_id value = do
    id_bytes ← or_invalid (rlp.decode_vec value)
    refuse_if (not (id_bytes == v4)) unsupported_identity_scheme

  unfoldable pub check_ip : Bytes → Result EnrError (Unit {0})
  check_ip value = do
    ip4_bytes ← or_invalid (rlp.decode_vec value)
    refuse_if (not (nat_eq (length ip4_bytes) 4)) (invalid_rlp_data (text "Invalid Ipv4 size"))

  unfoldable pub check_ip6 : Bytes → Result EnrError (Unit {0})
  check_ip6 value = do
    ip6_bytes ← or_invalid (rlp.decode_vec value)
    refuse_if (not (nat_eq (length ip6_bytes) 16)) (invalid_rlp_data (text "Invalid Ipv6 size"))

  unfoldable pub check_port : Bytes → Result EnrError (Unit {0})
  check_port value = do _ ← or_invalid (rlp.decode_u16 value); ok tt

  unfoldable pub check_spec_reserved_keys :
      ⦃keccak : Keccak256⦄
      → {S V : Type 0} → EnrKey S V
      → Bytes
      → Bytes
      → Panics (Result EnrError (Unit {0}))
  check_spec_reserved_keys k256 key value =
      if is_keyof_u16 key
      then ret (check_port value)
      else if key == id_key
      then ret (check_id value)
      else if key == ip_key
      then ret (check_ip value)
      else if key == ip6_key
      then ret (check_ip6 value)
      else if key == secp256k1_key
      then elim (decode k256 value) [
        | ret (ok _) ↦ ret (ok tt)
        | ret (err e) ↦ ret (err (invalid_rlp_data (rlp.to_string e)))
        | panic ↦ panic
      ]
      else ret (ok tt)
