-- ===== src/Tests/Suite.antt =====
-- The unit tests over the concrete crates, and updates that fit.
use enr.Prelude.{◌+◌, ◌≡◌, ◌≤◌, refl, [], ok, ret, some, arith, length}
use enr.Bytes.{Bytes, compare_bytes, tcp_key, v4, from_utf8_lossy}
use enr.BtreeMap
use enr.Keys.K256
use enr.Keys.Ed25519
use enr.Keys.Traits.{Entropy}
use enr.Keys.Laws.{IsCompact}
use enr.Enr.Defs.{Enr}
use enr.Enr.Encode.{encode, to_base64}
use enr.Enr.Decode.{decode, from_str, is_keyof_u16}
use enr.Enr.Getters.{id, get, get_raw_rlp}
use enr.Enr.Reserved.{check_spec_reserved_keys, check_port}
use enr.Enr.RoundTrip.{pair_items}
use enr.Enr.Revert.{stored_content}
use enr.Enr.Setters.{insert_raw_rlp}
use enr.Enr.Room.{weight, insert_raw_rlp_fits}
use enr.Enr.Valid.{IsOwned}
use enr.Builder
use enr.Builder.{build}
use enr.Builder.Finish.{prepared}
use enr.Builder.Room.{build_transmits}
use enr.UnitTests.Passes.{IsLight, builder-IsLight, tcp4-IsLight}
use enr.Tests.Rlp.{prefix_code, prefix_laws}
use enr.Tests.Crates.{sum_hash, sum_hash_laws, pair_base64, pair_base64_laws, pair_hex}
use enr.Tests.Keys.{keys, keys_laws, keys_own}
use enr.Tests.Samples.{sample}

pub keys-IsCompact : IsCompact keys
unfolding K256.sign_v4
keys-IsCompact = record {
  length-encode = λ p. omega arith;
  length-enr_key = λ p. omega arith;
  length-sign_v4 = λ rng k msg h. ground (arith, sum_hash_laws.length-hash msg, h);
}

pub seven_signs : (rng : Entropy) (msg : Bytes) → (sig : Bytes) × (keys.sign_v4 rng 7 msg ≡ ok sig)
unfolding K256.sign_v4
seven_signs rng msg = (_, refl)

-- What the insertion of a port takes.
record Runs : Type 0 where
  accepted : check_spec_reserved_keys keys tcp_key (prefix_code.encode_uint 9000) ≡ ret (ok tt)
  scheme : id sample ≡ ret (some v4)
  light : weight sample.content + length tcp_key + length (prefix_code.encode_uint 9000) ≤ 168
  short : length sample.signature ≤ 64

runs : Runs
unfolding check_spec_reserved_keys check_port is_keyof_u16 compare_bytes id get get_raw_rlp
    BtreeMap.get pair_items from_utf8_lossy
runs = record { accepted = refl; scheme = refl; light = omega arith; short = omega arith }

insert_raw_rlp_fits_example :
    (e' : Enr) × (insert_raw_rlp keys keys tcp_key (prefix_code.encode_uint 9000) 7 [] sample
      ≡ ret (ok (get_raw_rlp sample tcp_key), e'))
    × (e'.seq ≡ 2)
    × (e'.content ≡ stored_content keys tcp_key (prefix_code.encode_uint 9000) 7 sample.content)
    × (length e'.signature ≤ 64)
insert_raw_rlp_fits_example =
    insert_raw_rlp_fits prefix_laws keys keys-IsCompact keys sum_hash_laws keys_laws tcp_key
      (prefix_code.encode_uint 9000) 7 [] sample runs.accepted (λ h. ground (arith, h)) runs.scheme
      (omega arith) runs.short runs.light (seven_signs [])

abbrev filled : Builder.Builder
filled = Builder.tcp4 30303 Builder.builder

filled-IsLight : IsLight 18 filled
filled-IsLight = tcp4-IsLight prefix_laws 30303 0 Builder.builder (omega arith) builder-IsLight

build_transmits_example :
    (e : Enr) × (build keys 7 [] filled ≡ ret (ok e, prepared keys 7 filled))
    × IsOwned keys 7 e
    × (e.content ≡ (prepared keys 7 filled).content)
    × (e.seq ≡ filled.seq)
    × (decode keys (encode e) ≡ ret (ok e))
    × (from_str keys (to_base64 e) ≡ ret (ok e))
build_transmits_example =
    build_transmits prefix_laws keys keys-IsCompact sum_hash_laws keys_laws pair_base64_laws
      keys_own 7 [] filled filled-IsLight.scheme (omega (arith, filled-IsLight.counted))
      filled-IsLight.sound (omega (arith, filled-IsLight.light)) (seven_signs [])
