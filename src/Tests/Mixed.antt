-- ===== src/Tests/Mixed.antt =====
-- A record of a `secp256k1` key that an `ed25519` key updates, and a record of an `ed25519` key.
use enr.Prelude.{ℕ, ◌≡◌, ◌≢◌, ◌≤◌, refl, [], ◌∷◌, ok, err, ret, none, true, false, arith}
use enr.Bytes.{secp256k1_key, ed25519_key, id_key, tcp_key, v4, compare_bytes, from_utf8_lossy}
use enr.BtreeMap
use enr.NodeId.{of_public_key}
use enr.Crates.Rlp.{DecoderError, list_of}
use enr.Keys.Traits.{Content, EnrKey}
use enr.Keys.K256
use enr.Keys.Ed25519
use enr.Keys.Combined
use enr.Keys.Combined.{CombinedKey, CombinedPublicKey, combined_key}
use enr.Enr.Defs.{Enr, max_enr_size}
use enr.Enr.Encode
use enr.Enr.Encode.{public_key, verify, encode, size}
use enr.Enr.Getters.{id, get, get_raw_rlp}
use enr.Enr.Sign.{commit, sign, compute_signature}
use enr.Enr.Setters.{insert_raw_rlp, store}
use enr.Enr.Decode.{is_keyof_u16, decode}
use enr.Enr.Valid.{IsSound, IsValid, insert-IsSound, encode_bytes-IsSoundEntry}
use enr.Enr.Reserved.{check_spec_reserved_keys, check_port}
use enr.Enr.MixedKeys.{insert_raw_rlp-public_key_mixed}
use enr.Enr.MixedKeys.Decoding.{decode-encode_combined}
use enr.Tests.Rlp.{prefix_code, prefix_laws}
use enr.Tests.Crates.{sum_hash}
use enr.Tests.Keys.{keys, ed_keys, small_k256, small_ed25519}
use enr.Tests.Samples.{sample, content-IsSound, ended}

abbrev both_keys : EnrKey (CombinedKey ℕ ℕ) (CombinedPublicKey ℕ ℕ)
both_keys = combined_key keys ed_keys

-- The `ed25519` key 8 stores a port in the record of the `secp256k1` key 7.
abbrev mixed : Enr
mixed = ended (
    insert_raw_rlp both_keys keys tcp_key (prefix_code.encode_uint 9000) (CombinedKey.ed25519 8) []
      sample)

-- What the run returns.
record Runs : Type 0 where
  sample_read : K256.enr_to_public small_k256 sample.content ≡ ok 7
  tcp_differs : secp256k1_key ≢ tcp_key
  mixed_ran :
      insert_raw_rlp both_keys keys tcp_key
        (prefix_code.encode_uint 9000)
        (CombinedKey.ed25519 8)
        []
        sample
      ≡ ret (ok none, mixed)
  mixed_fails : verify both_keys mixed ≡ ret false

runs : Runs
unfolding insert_raw_rlp check_spec_reserved_keys check_port is_keyof_u16 compare_bytes store commit
    sign compute_signature id get get_raw_rlp BtreeMap.get BtreeMap.insert BtreeMap.remove
    from_utf8_lossy Encode.rlp_content Encode.append_rlp_content Encode.size Encode.encode
    Ed25519.sign_v4 Combined.sign_v4 Combined.public Combined.encode Combined.enr_key
    Combined.encode_uncompressed of_public_key K256.enr_to_public K256.decode_public verify
    public_key Combined.enr_to_public Combined.verify_v4 K256.verify_v4 Ed25519.encode
    Ed25519.encode_uncompressed
runs = record {
  sample_read = refl;
  tcp_differs = λ h. ground (arith, h);
  mixed_ran = refl;
  mixed_fails = refl;
}

insert_raw_rlp-public_key_mixed_example :
    (public_key both_keys mixed ≡ ret (CombinedPublicKey.secp256k1 7))
    × (of_public_key ed_keys.public_key 8 ≡ ret mixed.node_id)
insert_raw_rlp-public_key_mixed_example =
    insert_raw_rlp-public_key_mixed small_k256 small_ed25519 keys tcp_key
      (prefix_code.encode_uint 9000) 8 [] sample mixed 7 content-IsSound.sorted runs.tcp_differs
      runs.sample_read runs.mixed_ran

-- A record of the `ed25519` key 8.
abbrev ed_content : Content
ed_content = (ed25519_key, 2 ∷ 8 ∷ []) ∷ (id_key, 3 ∷ v4) ∷ []

abbrev ed_record : Enr
ed_record = record {
  seq = 1;
  node_id = record { raw = sum_hash.hash (8 ∷ []) };
  content = ed_content;
  signature =
      8
      ∷ sum_hash.hash (
          list_of ((2 ∷ 1 ∷ []) ∷ (8 ∷ ed25519_key) ∷ (2 ∷ 8 ∷ []) ∷ (3 ∷ id_key) ∷ (3 ∷ v4) ∷ []));
}

ed_inserted :
    ed_content
    ≡ BtreeMap.insert ed25519_key
        (prefix_code.encode_bytes (8 ∷ []))
        (BtreeMap.insert id_key (prefix_code.encode_bytes v4) [])
unfolding BtreeMap.insert compare_bytes
ed_inserted = refl

ed_content-IsSound : IsSound ed_content
ed_content-IsSound =
    let entry = encode_bytes-IsSoundEntry prefix_laws in
    rw ed_inserted (
      insert-IsSound ed25519_key (prefix_code.encode_bytes (8 ∷ [])) _
        (entry ed25519_key (8 ∷ []) (unfold is_keyof_u16 compare_bytes in refl))
        (insert-IsSound id_key (prefix_code.encode_bytes v4) []
          (entry id_key v4 (unfold is_keyof_u16 compare_bytes in refl))
          (record { sorted = tt; entries = tt })))

ed_record-IsValid : (v : IsValid ed_keys ed_record) × (v.public ≡ 8)
unfolding Ed25519.enr_to_public Ed25519.decode_public Ed25519.encode_uncompressed Ed25519.verify_v4
    of_public_key verify public_key BtreeMap.get compare_bytes id get get_raw_rlp from_utf8_lossy
    Encode.rlp_content Encode.append_rlp_content
ed_record-IsValid = (
  record {
    seq_range = omega arith;
    sound = ed_content-IsSound;
    public = 8;
    known = refl;
    identified = refl;
    verified = refl;
  },
  refl,
)

hidden : (x : DecoderError) × (keys.enr_to_public ed_content ≡ err x)
unfolding K256.enr_to_public BtreeMap.get compare_bytes
hidden = (_, refl)

ed_record_fits : size ed_record ≤ max_enr_size
unfolding size encode Encode.append_rlp_content
ed_record_fits = omega arith

decode-encode_combined_example :
    (decode both_keys (encode ed_record) ≡ ret (ok ed_record))
    × (public_key both_keys ed_record ≡ ret (CombinedPublicKey.ed25519 8))
    × (verify both_keys ed_record ≡ ret true)
decode-encode_combined_example =
    decode-encode_combined keys ed_keys prefix_laws (CombinedPublicKey.ed25519 8) ed_record
      (ed_record-IsValid.0, ed_record-IsValid.1, hidden.0, hidden.1) ed_record_fits
