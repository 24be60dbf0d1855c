-- ===== src/Enr/Base64.antt =====
-- The text of a record is read back, with its prefix and without.
use enr.Prelude.{◌≤◌, ◌≡◌, ◌≢◌, refl, [], ◌∷◌, false, ok, ret, All, length, take, arith}
use enr.Bytes.{Bytes, text, compare_bytes, ◌==◌}
use enr.Bytes.Laws.{eq_of_compare}
use enr.Crates.Rlp.{Rlp, RlpLaws}
use enr.Crates.Hashing.{Keccak256}
use enr.Crates.Text.{Base64, Base64Laws}
use enr.Keys.Traits.{EnrKey}
use enr.Enr.Defs.{Enr, max_enr_size}
use enr.Enr.Encode.{encode, size, to_base64}
use enr.Enr.Decode.{from_str}
use enr.Enr.Valid.{IsValid}
use enr.Enr.RoundTrip.{decode-encode}

-- A text without a colon does not begin with the prefix.
no_prefix : (s : Bytes) → All (λ x. x ≢ b':') s → (take 4 s == text "enr:") ≡ false
no_prefix [] a = unfold compare_bytes in refl
no_prefix (x ∷ []) a = ground (arith, eq_of_compare (x ∷ []) (text "enr:"))
no_prefix (x ∷ y ∷ []) a = ground (arith, eq_of_compare (x ∷ y ∷ []) (text "enr:"))
no_prefix (x ∷ y ∷ z ∷ []) a = ground (arith, eq_of_compare (x ∷ y ∷ z ∷ []) (text "enr:"))
no_prefix (x ∷ y ∷ z ∷ w ∷ s) a = ground (arith, eq_of_compare (x ∷ y ∷ z ∷ w ∷ []) (text "enr:"))

module _ ⦃rlp : Rlp⦄ ⦃keccak : Keccak256⦄ ⦃base64 : Base64⦄ (law : RlpLaws rlp)
    (text_law : Base64Laws base64) where
  -- A valid record of at most 300 bytes is read back from its text.
  pub from_str-to_base64 :
      {K P : Type 0} (keys : EnrKey K P) (e : Enr)
      → IsValid keys e
      → size e ≤ max_enr_size
      → from_str keys (to_base64 e) ≡ ret (ok e)
  unfolding from_str to_base64 compare_bytes
  from_str-to_base64 keys e v small =
      let read = text_law.decode-encode (encode e) in
      let back = decode-encode law keys e v small in ground (arith, read, back)

  -- A valid record of at most 300 bytes is read back from its text without the prefix, if that has
  -- four characters.
  pub from_str-encode :
      {K P : Type 0} (keys : EnrKey K P) (e : Enr)
      → IsValid keys e
      → size e ≤ max_enr_size
      → 4 ≤ length (base64.encode (encode e))
      → from_str keys (base64.encode (encode e)) ≡ ret (ok e)
  unfolding from_str compare_bytes
  from_str-encode keys e v small long =
      let bytes = encode e in
      let read = text_law.decode-encode bytes in
      let back = decode-encode law keys e v small in
      let bare = no_prefix (base64.encode bytes) (text_law.encode_alphabet bytes) in
      ground (arith, read, back, bare)
