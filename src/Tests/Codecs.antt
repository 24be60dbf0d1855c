-- ===== src/Tests/Codecs.antt =====
-- Runs of the codecs and of the builder.
use enr.Prelude.{
  ◌≡◌, ◌↔◌, ◌≤◌, refl, [], ◌∷◌, ◌++◌, ok, ret, some, arith, length, Panics, panic, Result, err,
}
use enr.Bytes.{Bytes, compare_bytes, v4}
use enr.BtreeMap
use enr.NodeId.{NodeId, of_public_key, parse, serialize, deserialize}
use enr.NodeId.Laws.{parse_iff, deserialize-serialize, zeros}
use enr.Keys.K256
use enr.Error.{EnrError}
use enr.Enr.Defs.{Enr, max_enr_size}
use enr.Enr.Encode
use enr.Enr.Encode.{size, encode, to_base64}
use enr.Enr.Getters.{id}
use enr.Enr.Decode.{decode, from_str}
use enr.Enr.Valid.{IsOwned, IsValid}
use enr.Enr.RoundTrip.{decode-encode}
use enr.Enr.Sound.{decode-IsValid}
use enr.Builder
use enr.Enr.Grammar.Text.{TextDenotes, from_str_iff_TextDenotes}
use enr.Builder.Finish.{prepared}
use enr.Builder.Laws.{build-IsOwned}
use enr.Enr.Total.{Returns, decode_total}
use enr.Builder.Total.{build_total}
use enr.Tests.Rlp.{prefix_code, prefix_laws}
use enr.Tests.Crates.{sum_hash, sum_hash_laws, pair_base64, pair_hex, pair_hex_laws}
use enr.Tests.Keys.{keys, keys_laws, keys_own}
use enr.Tests.Samples.{sample, sample-IsValid}

sample_fits : size sample ≤ max_enr_size
unfolding size encode Encode.append_rlp_content
sample_fits = omega arith

decode-encode_example : decode keys (encode sample) ≡ ret (ok sample)
decode-encode_example = decode-encode prefix_laws keys sample sample-IsValid sample_fits

sample_decodes : decode keys (encode sample) ≡ ret (ok sample)
sample_decodes = decode-encode prefix_laws keys sample sample-IsValid sample_fits

decode-IsValid_example : IsValid keys sample × (length (encode sample) ≤ max_enr_size)
decode-IsValid_example = decode-IsValid prefix_laws keys (encode sample) sample sample_decodes

abbrev short_bytes : Bytes
short_bytes = 1 ∷ 2 ∷ []

-- The record that the default builder builds.
abbrev built : Panics (Result EnrError Enr × Builder.Builder) → Enr
built (ret (ok e, b)) = e
built (ret (err x, b)) = sample
built panic = sample

abbrev first_record : Enr
first_record = built (Builder.build keys 7 [] Builder.default)

first_record_ran :
    Builder.build keys 7 [] Builder.default ≡ ret (ok first_record, prepared keys 7 Builder.default)
unfolding Builder.build Builder.default Builder.first_invalid Builder.finish Builder.signature
    Builder.rlp_content Builder.add_public_key Builder.add_value_rlp compare_bytes BtreeMap.insert
    K256.sign_v4 of_public_key K256.encode_uncompressed
first_record_ran = refl

build-IsOwned_example :
    IsOwned keys 7 first_record
    × (size first_record ≤ max_enr_size)
    × (first_record.seq ≡ 1)
    × (id first_record ≡ ret (some v4))
unfolding Builder.default
build-IsOwned_example =
    build-IsOwned keys prefix_laws keys_laws keys_own 7 [] Builder.default
      (prepared keys 7 Builder.default) first_record (record { sorted = tt; entries = tt })
      (omega arith) first_record_ran

abbrev short_id : NodeId
short_id = record { raw = 1 ∷ 2 ∷ zeros 30 }

short_id_parsed : parse (1 ∷ 2 ∷ []) ≡ ok short_id
unfolding parse
short_id_parsed = refl

parse_iff_example : (parse short_bytes ≡ ok short_id) ↔ (
    (length short_bytes ≤ 32)
    × (length short_id.raw ≡ 32)
    × (short_id.raw ≡ short_bytes ++ zeros 30))
parse_iff_example = parse_iff short_bytes short_id

deserialize-serialize_example :
    (deserialize (serialize short_id) ≡ ok short_id)
    × (deserialize (pair_hex.encode short_id.raw) ≡ ok short_id)
deserialize-serialize_example = deserialize-serialize pair_hex_laws short_id refl

decode_total_example : Returns (decode keys (encode sample))
decode_total_example = decode_total prefix_laws sum_hash_laws keys keys_laws (encode sample)

build_total_example : Returns (Builder.build keys 7 [] Builder.default)
build_total_example = build_total prefix_laws sum_hash_laws keys keys_laws 7 [] Builder.default

from_str_iff_TextDenotes_example :
    (from_str keys (to_base64 sample) ≡ ret (ok sample))
    ↔ TextDenotes keys (to_base64 sample) sample
from_str_iff_TextDenotes_example =
    from_str_iff_TextDenotes keys prefix_laws (to_base64 sample) sample
