-- ===== src/Crates/Rlp.antt =====
-- The crate `rlp` 0.5: recursive length prefix encoding.
use enr.Prelude.{
  ℕ, ◌+◌, ◌/◌, ◌%◌, ◌^◌, ◌≤◌, ◌<◌, ◌≡◌, ◌≢◌, List, [], ◌∷◌, ◌++◌, Bool, true, Result, ok, err,
  length, All,
}
use enr.Bytes.{Bytes}

-- `rlp::DecoderError`: the variants that the code makes, and the crate's others.
pub data DecoderError : Type 0 where
  rlp_expected_to_be_list : DecoderError
  rlp_inconsistent_length_and_data : DecoderError
  custom : Bytes → DecoderError
  other : ℕ → DecoderError

-- `rlp::PayloadInfo`
pub record PayloadInfo : Type 0 where
  pub header_len : ℕ
  pub value_len : ℕ

-- What was done to an `RlpStream` after `begin_list`: the count of items that was announced, and the
-- chunks appended, each counted as one item.
pub record RlpStream : Type 0 where
  pub item_count : ℕ
  pub chunks : List Bytes

abbrev pub begin_list : ℕ → RlpStream
begin_list n = record { item_count = n; chunks = [] }

-- `append_raw(bytes, 1)`; `append(&x)` appends the encoding of `x`.
abbrev pub append_raw : Bytes → RlpStream → RlpStream
append_raw b s = record s { chunks = s.chunks ++ b ∷ [] }

-- The calls on a view `Rlp::new(bytes)` are functions of its bytes, which `as_raw` returns.
pub record Rlp : Type 0 where
  -- `rlp::encode` of a byte slice, and of a `u16` or `u64`
  pub encode_bytes : Bytes → Bytes
  pub encode_uint : ℕ → Bytes
  -- `RlpStream::out`
  pub out : RlpStream → Bytes
  -- `Rlp::data`
  pub data_of : Bytes → Result DecoderError Bytes
  -- `rlp::decode::<T>` and `Rlp::as_val::<T>`
  pub decode_u16 : Bytes → Result DecoderError ℕ
  pub decode_u64 : Bytes → Result DecoderError ℕ
  pub decode_vec : Bytes → Result DecoderError Bytes
  pub is_list : Bytes → Bool
  pub payload_info : Bytes → Result DecoderError PayloadInfo
  -- `Rlp::iter`: the items from the first on, and `len` of the iterator
  pub iter : Bytes → List Bytes
  pub iter_len : Bytes → ℕ
  -- `DecoderError::to_string`, and its `Debug` text
  pub to_string : DecoderError → Bytes
  pub debug : DecoderError → Bytes

abbrev pub total : List Bytes → ℕ
total [] = 0
total (b ∷ bs) = length b + total bs

module _ ⦃r : Rlp⦄ where
  -- The bytes are one item and nothing more.
  abbrev pub IsItem : Bytes → Type 0
  IsItem b = (p : PayloadInfo) × (r.payload_info b ≡ ok p) × (p.header_len + p.value_len ≡ length b)

  -- A list that holds as many items as were announced.
  abbrev pub list_of : List Bytes → Bytes
  list_of items = r.out (record { item_count = length items; chunks = items })

-- What the crate documents: values decode to what was encoded, a finished list of items is an item
-- of which `iter` returns the items, and a header takes at most three bytes below 2^16.
pub record RlpLaws (r : Rlp) : Type 0 where
  pub data_of-encode_bytes : (b : Bytes) → r.data_of (r.encode_bytes b) ≡ ok b
  pub decode_vec-encode_bytes : (b : Bytes) → r.decode_vec (r.encode_bytes b) ≡ ok b
  pub decode_u16-encode_uint : (n : ℕ) → n < 2 ^ 16 → r.decode_u16 (r.encode_uint n) ≡ ok n
  pub decode_u64-encode_uint : (n : ℕ) → n < 2 ^ 64 → r.decode_u64 (r.encode_uint n) ≡ ok n
  pub decode_u64_range : (b : Bytes) {n : ℕ} → r.decode_u64 b ≡ ok n → n < 2 ^ 64
  pub decode_u16_range : (b : Bytes) {n : ℕ} → r.decode_u16 b ≡ ok n → n < 2 ^ 16
  -- what decodes to an integer has data
  pub data_of-decode_u16 :
      (b : Bytes) {n : ℕ} → r.decode_u16 b ≡ ok n → (d : Bytes) × (r.data_of b ≡ ok d)
  -- an integer is encoded as the byte string of its big-endian digits, without leading zeros
  pub uint_digits : ℕ → Bytes
  pub length-uint_digits : (n : ℕ) → n < 2 ^ 64 → length (uint_digits n) ≤ 8
  pub uint_digits_pair : (n : ℕ) → 256 ≤ n → n < 2 ^ 16 → uint_digits n ≡ (n / 256) ∷ (n % 256) ∷ []
  pub decode_u16_leading :
      (lo : ℕ) → (x : DecoderError) × (r.decode_u16 (r.encode_bytes (0 ∷ lo ∷ [])) ≡ err x)
  pub encode_uint_bytes : (n : ℕ) → r.encode_uint n ≡ r.encode_bytes (uint_digits n)
  pub encode_bytes-IsItem : (b : Bytes) → IsItem ⦃r = r⦄ (r.encode_bytes b)
  pub length-encode_bytes_short :
      (b : Bytes) → 2 ≤ length b → length b < 56 → length (r.encode_bytes b) ≡ length b + 1
  pub length-encode_bytes_ge : (b : Bytes) → length b ≤ length (r.encode_bytes b)
  pub length-encode_bytes_le :
      (b : Bytes) → length b < 2 ^ 16 → length (r.encode_bytes b) ≤ length b + 3
  -- a byte string is not a list
  pub is_list-encode_bytes : (b : Bytes) → r.is_list (r.encode_bytes b) ≢ true
  pub is_list-list_of : (items : List Bytes) → r.is_list (list_of ⦃r = r⦄ items) ≡ true
  pub list_of-IsItem : (items : List Bytes) → IsItem ⦃r = r⦄ (list_of ⦃r = r⦄ items)
  pub iter-list_of :
      (items : List Bytes) → All (IsItem ⦃r = r⦄) items → r.iter (list_of ⦃r = r⦄ items) ≡ items
  pub iter_len-list_of :
      (items : List Bytes)
      → All (IsItem ⦃r = r⦄) items
      → r.iter_len (list_of ⦃r = r⦄ items) ≡ length items
  pub iter-IsItem : (b : Bytes) → All (IsItem ⦃r = r⦄) (r.iter b)
  pub total-lt-length-list_of : (items : List Bytes) → total items < length (list_of ⦃r = r⦄ items)
  pub length-list_of_le :
      (items : List Bytes) → total items < 2 ^ 16 → length (list_of ⦃r = r⦄ items) ≤ total items + 3
