-- ===== src/Enr/Decode.antt =====
-- `Decodable for Enr` and `FromStr for Enr`.
use enr.Prelude.{
  ℕ, ◌+◌, ◌%◌, [], ◌∷◌, ◌++◌, List, Bool, true, false, not, ◌||◌, Option, none, some, Result, ok,
  err, Panics, ret, panic, length, take, drop, ltb, if◌then◌else◌, Ordering,
}
use enr.Prelude.{◌==◌ as nat_eq}
use enr.Prelude.Fallible.{◌>>=◌}
use enr.Prelude.Panicking
use enr.Bytes.{Bytes, text, compare_bytes, ◌==◌, tcp_key, tcp6_key, udp_key, udp6_key}
use enr.BtreeMap
use enr.Crates.Rlp.{
  Rlp, DecoderError, rlp_expected_to_be_list, rlp_inconsistent_length_and_data, custom,
}
use enr.Crates.Hashing.{Keccak256}
use enr.Crates.Text.{Base64}
use enr.NodeId.{of_public_key}
use enr.Keys.Traits.{Content, EnrKey}
use enr.Enr.Defs.{Enr, max_enr_size}
use enr.Enr.Encode.{verify}

unfoldable pub is_keyof_u16 : Bytes → Bool
is_keyof_u16 key = key == tcp_key || (key == tcp6_key || (key == udp_key || key == udp6_key))

-- `prev.is_some() && prev >= Some(key)`
abbrev pub is_unsorted : Option Bytes → Bytes → Bool
is_unsorted none key = false
is_unsorted (some p) key = elim (compare_bytes p key) [ Ordering.lt ↦ false | _ ↦ true ]

-- `ok_or` on the next item of an iterator, with the items after it
abbrev pub next_or : List Bytes → Bytes → Result DecoderError (Bytes × List Bytes)
next_or [] message = err (custom message)
next_or (item ∷ items) message = ok (item, items)

abbrev pub reject_if : Bool → DecoderError → Result DecoderError (Unit {0})
reject_if true e = err e
reject_if false e = ok tt

module _ ⦃rlp : Rlp⦄ where
  -- "Sanitize the data"
  unfoldable pub sanitize : Bytes → Bytes → Result DecoderError (Unit {0})
  sanitize key item =
      if is_keyof_u16 key
      then (do _ ← rlp.decode_u16 item; ok tt)
      else (do _ ← rlp.data_of item; ok tt)

  -- The `while let` loop: `prev`, the items left, and the content so far.
  unfoldable pub read_pairs : Option Bytes → List Bytes → Content → Result DecoderError Content
  read_pairs prev [] content = ok content
  read_pairs prev (k ∷ []) content = do
    _ ← rlp.data_of k
    err (custom (text "List not a multiple of 2"))
  read_pairs prev (k ∷ item ∷ items) content = do
    key ← rlp.data_of k
    _ ← sanitize key item
    _ ← reject_if (is_unsorted prev key) (custom (text "Unsorted keys"))
    read_pairs (some key) items (BtreeMap.insert key item content)

  -- The checks on the whole input.
  unfoldable pub check_frame : Bytes → Result DecoderError (Unit {0})
  check_frame raw = do
    _ ← reject_if (ltb max_enr_size (length raw)) (custom (text "enr exceeds max size"))
    _ ← reject_if (not (rlp.is_list raw)) rlp_expected_to_be_list
    payload_info ← rlp.payload_info raw
    _ ←
        reject_if (not (nat_eq (length raw) (payload_info.header_len + payload_info.value_len)))
          rlp_inconsistent_length_and_data
    reject_if (nat_eq (rlp.iter_len raw) 0 || not (nat_eq (rlp.iter_len raw % 2) 0))
        (custom (text "List not a multiple of two"))

  -- The signature, the sequence number and the content, from the items of the list.
  unfoldable pub read_items : List Bytes → Result DecoderError (Bytes × ℕ × Content)
  read_items iter = do
    (first, items) ← next_or iter (text "List is empty")
    signature ← rlp.data_of first
    (second, items') ← next_or items (text "List has only one item")
    seq ← rlp.decode_u64 second
    content ← read_pairs none items' []
    ok (signature, seq, content)

  unfoldable pub read_record : Bytes → Result DecoderError (Bytes × ℕ × Content)
  read_record raw = do _ ← check_frame raw; read_items (rlp.iter raw)

  -- The check of the signature, once the public key is known.
  unfoldable pub authenticate :
      ⦃keccak : Keccak256⦄
      → {K P : Type 0} → EnrKey K P
      → P
      → Bytes
      → ℕ
      → Content
      → Panics (Result DecoderError Enr)
  authenticate keys public_key signature seq content =
      Panicking.◌>>=◌ (of_public_key keys.public_key public_key) λ node_id.
        let enr : Enr = record {
          seq = seq;
          node_id = node_id;
          content = content;
          signature = signature;
        } in
        Panicking.◌>>=◌ (verify keys enr)
          λ valid. ret (if valid then ok enr else err (custom (text "Invalid Signature")))

  -- `Decodable::decode`; `rlp::decode` calls it on all its input.
  unfoldable pub decode :
      ⦃keccak : Keccak256⦄ → {K P : Type 0} → EnrKey K P → Bytes → Panics (Result DecoderError Enr)
  unfolding authenticate
  decode keys raw = elim (read_record raw) [
    | err e ↦ ret (err e)
    | ok (signature, seq, content) ↦ elim (keys.enr_to_public content) [
      | err e ↦ ret (err e)
      | ok public_key ↦ authenticate keys public_key signature seq content
    ]
  ]

  -- `FromStr`
  unfoldable pub from_str :
      ⦃base64 : Base64⦄
      → ⦃keccak : Keccak256⦄ → {K P : Type 0} → EnrKey K P
      → Bytes
      → Panics (Result Bytes Enr)
  from_str ⦃base64⦄ keys base64_string =
      let prefixed = take 4 base64_string == text "enr:" in
      let decode_string = if prefixed then drop 4 base64_string else base64_string in
      if ltb (length base64_string) 4
      then ret (err (text "Invalid ENR string"))
      else elim (base64.decode decode_string) [
        | err e ↦ ret (err (text "Invalid base64 encoding: " ++ e))
        | ok bytes ↦ elim (decode keys bytes) [
          | ret (ok enr) ↦ ret (ok enr)
          | ret (err e) ↦ ret (err (text "Invalid ENR: " ++ rlp.debug e))
          | panic ↦ panic
        ]
      ]
