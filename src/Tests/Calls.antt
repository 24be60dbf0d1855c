-- ===== src/Tests/Calls.antt =====
-- Runs of sequences of updates, and of what is read off a record.
use enr.Prelude.{
  ℕ, ◌+◌, ◌≡◌, ◌↔◌, refl, [], ◌∷◌, List, true, Result, ok, err, ret, some, Panics, panic, All,
  arith, length, ◌≤◌,
}
use enr.Bytes.{Bytes, compare_bytes, text, from_utf8_lossy, id_key, secp256k1_key, tcp_key, v4}
use enr.BtreeMap
use enr.Error.{EnrError}
use enr.NodeId.{of_public_key}
use enr.Keys.Traits.{Entropy}
use enr.Keys.K256
use enr.Enr.Defs.{Enr, SocketAddr, v4_socket, max_enr_size}
use enr.Enr.Encode
use enr.Enr.Encode.{size, encode, compare_content, to_base64}
use enr.Enr.Getters.{id, get, get_raw_rlp}
use enr.Enr.Sign
use enr.Enr.Sign.{commit, sign, compute_signature}
use enr.Enr.Setters
use enr.Enr.Setters.{store}
use enr.Enr.Decode.{decode, is_keyof_u16}
use enr.Enr.Reserved.{check_spec_reserved_keys, check_port}
use enr.Enr.Socket
use enr.Enr.Socket.{entries}
use enr.Enr.RemoveInsert
use enr.Enr.Valid.{encode_uint-IsSoundEntry}
use enr.Enr.Calls.{Call, insert_raw_rlp, set_tcp_socket, remove_insert, set_seq, run, run_all}
use enr.Enr.Abstract.{view, replay}
use enr.Enr.Safety.{IsSafe}
use enr.Enr.Safety.Calls.{Admissible, run_all_total}
use enr.Enr.Refines.Sequences.{run_all-replay}
use enr.Enr.Refines.Signed.{compare_content_iff}
use enr.Enr.Total.{Returns}
use enr.Enr.Grammar.{Denotes}
use enr.Enr.Grammar.Accepts.{decode_iff_Denotes}
use enr.Enr.Format.{serialize, deserialize, display}
use enr.Enr.Transport.{deserialize-display}
use enr.Builder.{build}
use enr.Builder.Rebuild.{refilled, build-refilled}
use enr.Tests.Rlp.{prefix_code, prefix_laws}
use enr.Tests.Crates.{sum_hash, sum_hash_laws, pair_base64, pair_base64_laws, pair_hex}
use enr.Tests.Keys.{keys, keys_laws, keys_own}
use enr.Tests.Samples.{sample, sample-IsValid, content-IsSound}

abbrev address : SocketAddr
address = v4_socket (record { ip = 10 ∷ 0 ∷ 0 ∷ 1 ∷ []; port = 9000 })

-- A port, a socket over it, a removal with an insertion, and a new sequence number.
abbrev four_calls : List (Call ℕ × ℕ × Entropy)
four_calls =
    (insert_raw_rlp tcp_key (prefix_code.encode_uint 8000), 7, [])
    ∷ (set_tcp_socket address, 7, [])
    ∷ (remove_insert (tcp_key ∷ []) ((text "topics", 5 ∷ []) ∷ []), 7, [])
    ∷ (set_seq 9, 7, [])
    ∷ []

abbrev left_by : Panics (List (Result EnrError (Unit {0})) × Enr) → Enr
left_by (ret (results, e)) = e
left_by panic = sample

abbrev after_four : Enr
after_four = left_by (run_all keys keys four_calls sample)

sample-IsSafe : IsSafe sample
sample-IsSafe = record { seq_range = sample-IsValid.seq_range; sound = content-IsSound }

four_calls-Admissible : All (λ (c : Call ℕ × ℕ × Entropy). Admissible c.0) four_calls
unfolding entries
four_calls-Admissible = (
  encode_uint-IsSoundEntry prefix_laws tcp_key 8000 (omega arith),
  (omega arith, (tt, (omega arith, tt))),
)

four_ran :
    run_all keys keys four_calls sample ≡ ret (ok tt ∷ ok tt ∷ ok tt ∷ ok tt ∷ [], after_four)
unfolding run_all run Setters.insert_raw_rlp check_spec_reserved_keys check_port is_keyof_u16
    compare_bytes store commit sign compute_signature id get get_raw_rlp BtreeMap.get
    BtreeMap.insert BtreeMap.remove from_utf8_lossy Encode.rlp_content Encode.append_rlp_content
    Encode.size Encode.encode K256.sign_v4 of_public_key K256.encode_uncompressed Sign.set_seq
    Socket.set_tcp_socket Socket.set_socket Socket.set_entries entries RemoveInsert.remove_insert
    RemoveInsert.remove_all RemoveInsert.insert_all RemoveInsert.insert_one
four_ran = refl

run_all_total_example :
    (results : List (Result EnrError (Unit {0}))) × (e' : Enr) × (run_all keys keys four_calls
        sample
      ≡ ret (results, e'))
    × (length results ≡ length four_calls)
    × IsSafe e'
    × ((key : Bytes) → Returns (get e' key))
run_all_total_example =
    run_all_total prefix_laws sum_hash_laws keys keys_laws keys keys_laws four_calls sample
      sample-IsSafe four_calls-Admissible

run_all-replay_example : view after_four ≡ replay keys four_calls (view sample)
run_all-replay_example =
    run_all-replay prefix_laws sum_hash_laws keys keys_laws keys_own keys keys_laws four_calls
      sample after_four (ok tt ∷ ok tt ∷ ok tt ∷ ok tt ∷ []) sample-IsSafe four_calls-Admissible
      four_ran (refl, (refl, (refl, (refl, tt))))

decode_iff_Denotes_example :
    (decode keys (encode sample) ≡ ret (ok sample)) ↔ Denotes keys (encode sample) sample
decode_iff_Denotes_example = decode_iff_Denotes keys prefix_laws (encode sample) sample

-- The same content under no signature.
abbrev unsigned : Enr
unsigned = record sample { signature = [] }

compare_content_iff_example :
    (compare_content sample unsigned ≡ true) ↔ (view sample ≡ view unsigned)
compare_content_iff_example =
    compare_content_iff prefix_laws sample unsigned sample-IsSafe
      (record { seq_range = sample-IsSafe.seq_range; sound = content-IsSound })

key_found : get_raw_rlp sample secp256k1_key ≡ some (2 ∷ 7 ∷ [])
unfolding get_raw_rlp BtreeMap.get compare_bytes
key_found = refl

sample_fits : size sample ≤ max_enr_size
unfolding size encode Encode.append_rlp_content
sample_fits = omega arith

deserialize-display_example :
    (deserialize {E = Bytes} keys (λ message. message) (ok (serialize sample)) ≡ ret (ok sample))
    × (deserialize {E = Bytes} keys (λ message. message) (ok (display sample)) ≡ ret (ok sample))
    × (deserialize {E = Bytes} keys (λ message. message) (err []) ≡ ret (err []))
deserialize-display_example =
    deserialize-display prefix_laws pair_base64_laws keys (λ message. message) [] sample
      sample-IsValid sample_fits

sample_signed : keys.sign_v4 [] 7 (Encode.rlp_content sample) ≡ ok sample.signature
unfolding K256.sign_v4 Encode.rlp_content Encode.append_rlp_content
sample_signed = refl

sample_named : of_public_key keys.public_key (keys.public 7) ≡ ret sample.node_id
unfolding of_public_key K256.encode_uncompressed
sample_named = refl

sample_small : length (Encode.rlp_content sample) + length sample.signature + 8 ≤ max_enr_size
unfolding Encode.rlp_content Encode.append_rlp_content
sample_small = omega arith

sample_scheme : get_raw_rlp sample id_key ≡ some (prefix_code.encode_bytes v4)
unfolding get_raw_rlp BtreeMap.get compare_bytes
sample_scheme = refl

build-refilled_example : build keys 7 [] (refilled sample) ≡ ret (ok sample, refilled sample)
build-refilled_example =
    build-refilled prefix_laws keys 7 [] sample content-IsSound sample_scheme key_found sample_named
      sample_signed sample_small
