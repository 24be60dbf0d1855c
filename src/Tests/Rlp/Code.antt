-- ===== src/Tests/Rlp/Code.antt =====
-- The code of single items.
use enr.Prelude.{
  ℕ, zero, suc, ◌^◌, ◌≤◌, ◌<◌, ◌≡◌, refl, List, [], ◌∷◌, ◌++◌, Bool, true, false, Result, ok, err,
  length, length-append, take, ltb, leb, if◌then◌else◌, arith,
}
use enr.Prelude.Fallible.{◌>>=◌}
use enr.Bytes.{Bytes, text}
use enr.Tests.Rlp.Digits.{
  uint_digits, uint_value, leads_zero, uint_value-uint_digits, leads_zero-uint_digits,
}
use enr.Crates.Rlp.{
  DecoderError, custom, rlp_inconsistent_length_and_data, PayloadInfo, RlpStream, total,
}

abbrev pub encode_bytes : Bytes → Bytes
encode_bytes b = suc (length b) ∷ b

abbrev pub encode_uint : ℕ → Bytes
encode_uint n = encode_bytes (uint_digits n)

abbrev pub join : List Bytes → Bytes
join [] = []
join (b ∷ bs) = b ++ join bs

abbrev pub out : RlpStream → Bytes
out s = 0 ∷ length (join s.chunks) ∷ join s.chunks

abbrev pub data_of : Bytes → Result DecoderError Bytes
data_of [] = err rlp_inconsistent_length_and_data
data_of (zero ∷ b) = err (custom (text "RlpExpectedToBeData"))
data_of (suc n ∷ b) =
    if leb n (length b) then ok (take n b) else err rlp_inconsistent_length_and_data

abbrev pub decode_vec : Bytes → Result DecoderError Bytes
decode_vec = data_of

-- a number below the bound, without leading zeros
abbrev read_digits : ℕ → Bytes → Result DecoderError ℕ
read_digits bound b =
    if leads_zero b
    then err (custom (text "RlpInvalidIndirection"))
    else (if ltb (uint_value b) bound then ok (uint_value b) else err (custom (text "RlpIsTooBig")))

abbrev pub decode_uint : ℕ → Bytes → Result DecoderError ℕ
decode_uint bound b = do d ← data_of b; read_digits bound d

abbrev pub is_list : Bytes → Bool
is_list (zero ∷ b) = true
is_list _ = false

abbrev pub payload_info : Bytes → Result DecoderError PayloadInfo
payload_info [] = err rlp_inconsistent_length_and_data
payload_info (zero ∷ []) = err rlp_inconsistent_length_and_data
payload_info (zero ∷ n ∷ b) = ok (record { header_len = 2; value_len = n })
payload_info (suc n ∷ b) = ok (record { header_len = 1; value_len = n })

pub take_all : (b : Bytes) → take (length b) b ≡ b
take_all [] = refl
take_all (x ∷ b) = rw (take_all b) refl

pub leb_refl : (n : ℕ) → leb n n ≡ true
leb_refl n = ground arith

pub data_of-encode_bytes : (b : Bytes) → data_of (encode_bytes b) ≡ ok b
data_of-encode_bytes b = rw (leb_refl (length b), take_all b) refl

pub decode_uint-encode_uint :
    (bound n : ℕ) → n < bound → bound ≤ 2 ^ 64 → decode_uint bound (encode_uint n) ≡ ok n
decode_uint-encode_uint bound n h wide =
    rw
      (
        data_of-encode_bytes (uint_digits n),
        leads_zero-uint_digits n (omega arith),
        uint_value-uint_digits n (omega arith),
      )
      (ground arith)

read_digits_range : (bound : ℕ) (d : Bytes) {n : ℕ} → read_digits bound d ≡ ok n → n < bound
read_digits_range bound d h = ground arith

-- A leading zero is refused.
pub decode_uint_leading :
    (bound lo : ℕ) → (x : DecoderError) × (decode_uint bound (encode_bytes (0 ∷ lo ∷ [])) ≡ err x)
decode_uint_leading bound lo = (custom (text "RlpInvalidIndirection"), refl)

pub decode_uint_data :
    (bound : ℕ) (b : Bytes) {n : ℕ}
    → decode_uint bound b ≡ ok n
    → (d : Bytes) × (data_of b ≡ ok d) × (n < bound)
decode_uint_data bound b {n} h = by_data (data_of b) refl
  where
    by_data :
        (r : Result DecoderError Bytes)
        → data_of b ≡ r
        → (d : Bytes) × (data_of b ≡ ok d) × (n < bound)
    by_data (ok d) i = (d, i, read_digits_range bound d (ground arith))
    by_data (err x) i = absurd (ground arith)

pub length-join : (bs : List Bytes) → length (join bs) ≡ total bs
length-join [] = refl
length-join (b ∷ bs) = omega (arith, length-append b (join bs), length-join bs)
