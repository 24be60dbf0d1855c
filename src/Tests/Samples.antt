-- ===== src/Tests/Samples.antt =====
-- A record of the key 7, signed and sound.
use enr.Prelude.{◌≡◌, refl, [], ◌∷◌, Panics, ret, panic, arith}
use enr.Bytes.{compare_bytes, from_utf8_lossy, id_key, secp256k1_key, v4}
use enr.BtreeMap
use enr.Crates.Rlp.{list_of}
use enr.NodeId.{of_public_key}
use enr.Keys.K256
use enr.Keys.Traits.{Content}
use enr.Enr.Defs.{Enr}
use enr.Enr.Encode
use enr.Enr.Encode.{verify, public_key}
use enr.Enr.Getters.{id, get, get_raw_rlp}
use enr.Enr.Valid.{IsSound, IsValid, insert-IsSound, encode_bytes-IsSoundEntry}
use enr.Enr.Decode.{is_keyof_u16}
use enr.Tests.Rlp.{prefix_code, prefix_laws}
use enr.Tests.Crates.{sum_hash}
use enr.Tests.Keys.{keys}

abbrev pub content : Content
content = (id_key, 3 ∷ 118 ∷ 52 ∷ []) ∷ (secp256k1_key, 2 ∷ 7 ∷ []) ∷ []

abbrev pub sample : Enr
sample = record {
  seq = 1;
  node_id = record { raw = sum_hash.hash (7 ∷ 7 ∷ []) };
  content = content;
  signature =
      7
      ∷ sum_hash.hash (
          list_of
            ((2 ∷ 1 ∷ []) ∷ (3 ∷ id_key) ∷ (3 ∷ v4) ∷ (10 ∷ secp256k1_key) ∷ (2 ∷ 7 ∷ []) ∷ []));
}

inserted :
    content
    ≡ BtreeMap.insert secp256k1_key
        (prefix_code.encode_bytes (7 ∷ []))
        (BtreeMap.insert id_key (prefix_code.encode_bytes v4) [])
unfolding BtreeMap.insert compare_bytes
inserted = refl

pub content-IsSound : IsSound content
content-IsSound =
    let entry = encode_bytes-IsSoundEntry prefix_laws in
    rw inserted (
      insert-IsSound secp256k1_key (prefix_code.encode_bytes (7 ∷ [])) _
        (entry secp256k1_key (7 ∷ []) (unfold is_keyof_u16 compare_bytes in refl))
        (insert-IsSound id_key (prefix_code.encode_bytes v4) []
          (entry id_key v4 (unfold is_keyof_u16 compare_bytes in refl))
          (record { sorted = tt; entries = tt })))

pub sample-IsValid : IsValid keys sample
sample-IsValid = record {
  seq_range = omega arith;
  sound = content-IsSound;
  public = 7;
  known = unfold K256.enr_to_public K256.decode_public BtreeMap.get compare_bytes in refl;
  identified = unfold of_public_key K256.encode_uncompressed in refl;
  verified =
      unfold verify public_key K256.enr_to_public K256.decode_public K256.verify_v4 BtreeMap.get
        compare_bytes id get get_raw_rlp from_utf8_lossy Encode.rlp_content
        Encode.append_rlp_content in
      refl;
}

-- The record that an operation leaves.
abbrev pub ended : {A : Type 0} → Panics (A × Enr) → Enr
ended (ret (a, e)) = e
ended panic = sample
