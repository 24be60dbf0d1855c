-- ===== src/Tests/Rlp.antt =====
-- A concrete prefix code in the place of the crate `rlp`: a byte string is preceded by its length
-- plus one, a list by a zero and the length of its payload. An integer is a byte string, without leading zeros.
mod Digits
mod Code
mod Items
use enr.Prelude.{◌+◌, ◌^◌, ◌≤◌, ◌≡◌, refl, ap, ◌∷◌, [], ok, arith, length}
use enr.Bytes.{text}
use enr.Crates.Rlp.{Rlp, RlpLaws}
use Code.{
  encode_bytes, encode_uint, out, join, data_of, decode_uint, decode_vec, is_list, payload_info,
  data_of-encode_bytes, decode_uint-encode_uint, decode_uint_data, decode_uint_leading, length-join,
}
use Digits.{uint_digits, length-uint_digits, uint_digits_pair}
use Items.{iter, iter-IsOne, iter-join}

instance abbrev pub prefix_code : Rlp
prefix_code = record {
  encode_bytes = encode_bytes;
  encode_uint = encode_uint;
  out = out;
  data_of = data_of;
  decode_u16 = decode_uint (2 ^ 16);
  decode_u64 = decode_uint (2 ^ 64);
  decode_vec = decode_vec;
  is_list = is_list;
  payload_info = payload_info;
  iter = iter;
  iter_len = λ b. length (iter b);
  to_string = λ e. text "error";
  debug = λ e. text "Error";
}

pub prefix_laws : RlpLaws prefix_code
prefix_laws = record {
  data_of-encode_bytes = data_of-encode_bytes;
  decode_vec-encode_bytes = data_of-encode_bytes;
  decode_u16-encode_uint = λ n h. decode_uint-encode_uint (2 ^ 16) n h (omega arith);
  decode_u64-encode_uint = λ n h. decode_uint-encode_uint (2 ^ 64) n h (omega arith);
  decode_u64_range = λ b h. (decode_uint_data (2 ^ 64) b h).2;
  decode_u16_range = λ b h. (decode_uint_data (2 ^ 16) b h).2;
  data_of-decode_u16 = λ b h. let d = decode_uint_data (2 ^ 16) b h in (d.0, d.1);
  uint_digits = uint_digits;
  length-uint_digits = λ n h. length-uint_digits n;
  uint_digits_pair = uint_digits_pair;
  decode_u16_leading = decode_uint_leading (2 ^ 16);
  encode_uint_bytes = λ n. refl;
  encode_bytes-IsItem = λ b. (record { header_len = 1; value_len = length b }, refl, omega arith);
  length-encode_bytes_short = λ b low high. omega arith;
  length-encode_bytes_ge = λ b. omega arith;
  length-encode_bytes_le = λ b h. omega arith;
  is_list-encode_bytes = λ b h. ground arith;
  is_list-list_of = λ items. refl;
  list_of-IsItem = λ items. (record { header_len = 2; value_len = _ }, refl, omega arith);
  iter-list_of = λ items all. iter-join 0 (length (join items)) items all;
  iter_len-list_of = λ items all. ap length (iter-join 0 (length (join items)) items all);
  iter-IsItem = iter-IsOne;
  total-lt-length-list_of = λ items. omega (arith, length-join items);
  length-list_of_le = λ items h. omega (arith, length-join items);
}
