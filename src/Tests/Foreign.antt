-- ===== src/Tests/Foreign.antt =====
-- Records that a key signs which is not the one they store.
use enr.Prelude.{ℕ, ◌≡◌, refl, [], ◌∷◌, Panics, Result, ret, panic, ok, false, arith}
use enr.Bytes.{Bytes, secp256k1_key, compare_bytes, from_utf8_lossy}
use enr.BtreeMap
use enr.Error.{EnrError}
use enr.NodeId.{of_public_key}
use enr.Keys.Traits.{Entropy, EnrKey}
use enr.Keys.K256
use enr.Keys.Ed25519
use enr.Keys.Combined
use enr.Keys.Combined.{CombinedKey, CombinedPublicKey, combined_key}
use enr.Enr.Defs.{Enr}
use enr.Enr.Encode
use enr.Enr.Encode.{public_key, verify}
use enr.Enr.Getters.{id, get, get_raw_rlp}
use enr.Enr.Sign.{sign, compute_signature, set_seq}
use enr.Enr.Seq.{set_seq_other_key}
use enr.Builder
use enr.Builder.{build}
use enr.Builder.Mixed.{build-public_key_mixed}
use enr.Tests.Rlp.{prefix_code}
use enr.Tests.Crates.{sum_hash}
use enr.Tests.Keys.{keys, ed_keys, small_k256, small_ed25519}
use enr.Tests.Samples.{sample, ended}

-- The key 8 numbers the record of the key 7.
abbrev renumbered : Enr
renumbered = ended (set_seq keys 9 8 [] sample)

abbrev both_keys : EnrKey (CombinedKey ℕ ℕ) (CombinedPublicKey ℕ ℕ)
both_keys = combined_key keys ed_keys

-- The `ed25519` key 8 builds from a builder that stores the `secp256k1` key 7.
abbrev with_key : Builder.Builder
with_key = record Builder.default { content = (secp256k1_key, 2 ∷ 7 ∷ []) ∷ [] }

abbrev built_run : Panics (Result EnrError Enr × Builder.Builder)
built_run = build both_keys (CombinedKey.ed25519 8) [] with_key

abbrev made : Panics (Result EnrError Enr × Builder.Builder) → Enr
made (ret (ok e, b)) = e
made _ = sample

abbrev left : Panics (Result EnrError Enr × Builder.Builder) → Builder.Builder
left (ret (r, b)) = b
left panic = with_key

record Runs : Type 0 where
  known : keys.enr_to_public sample.content ≡ ok 7
  renumbered_ran : set_seq keys 9 8 [] sample ≡ ret (ok tt, renumbered)
  stored : K256.enr_to_public small_k256 with_key.content ≡ ok 7
  built_ran : built_run ≡ ret (ok (made built_run), left built_run)

runs : Runs
unfolding set_seq sign compute_signature id get get_raw_rlp BtreeMap.get BtreeMap.insert
    compare_bytes from_utf8_lossy Encode.rlp_content Encode.append_rlp_content Encode.size
    Encode.encode K256.sign_v4 K256.encode_uncompressed of_public_key K256.enr_to_public
    K256.decode_public Ed25519.sign_v4 Ed25519.encode Ed25519.encode_uncompressed Combined.sign_v4
    Combined.public Combined.encode Combined.enr_key Combined.encode_uncompressed build
    Builder.default Builder.first_invalid Builder.finish Builder.signature Builder.rlp_content
    Builder.add_public_key Builder.add_value_rlp
runs = record { known = refl; renumbered_ran = refl; stored = refl; built_ran = refl }

refused :
    (rng : Entropy) (msg sig : Bytes)
    → keys.sign_v4 rng 8 msg ≡ ok sig
    → keys.verify_v4 7 msg sig ≡ false
unfolding K256.sign_v4 K256.verify_v4 compare_bytes
refused rng msg sig h = ground (arith, h)

set_seq_other_key_example :
    (of_public_key keys.public_key 8 ≡ ret renumbered.node_id)
    × (public_key keys renumbered ≡ ret 7)
    × (verify keys renumbered ≡ ret false)
set_seq_other_key_example =
    set_seq_other_key keys 9 8 [] sample renumbered 7 runs.known refused runs.renumbered_ran

build-public_key_mixed_example :
    (public_key both_keys (made built_run) ≡ ret (CombinedPublicKey.secp256k1 7))
    × (of_public_key ed_keys.public_key 8 ≡ ret (made built_run).node_id)
build-public_key_mixed_example =
    build-public_key_mixed small_k256 small_ed25519 8 [] with_key (left built_run) (made built_run)
      7 runs.stored runs.built_ran
