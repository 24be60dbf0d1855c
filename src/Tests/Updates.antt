-- ===== src/Tests/Updates.antt =====
-- Runs of the operations that sign a record.
use enr.Prelude.{ℕ, true, ◌≡◌, ◌≤◌, refl, [], ◌∷◌, ok, err, ret, none, some, arith, false, ltb}
use enr.Bytes.{compare_bytes, text, from_utf8_lossy, v4, tcp_key, tcp6_key, udp_key, udp6_key}
use enr.BtreeMap
use enr.Error.{invalid_rlp_data, unsupported_identity_scheme}
use enr.NodeId.{of_public_key}
use enr.Keys.K256
use enr.Enr.Defs.{Enr, max_enr_size}
use enr.Enr.Encode
use enr.Enr.Encode.{size, verify, public_key, rlp_content}
use enr.Enr.Getters.{tcp4, tcp6, udp4, udp6, id, get, get_raw_rlp, get_decodable}
use enr.Enr.Sign.{commit, sign, compute_signature, set_seq}
use enr.Enr.Setters.{insert_raw_rlp, store, set_tcp4, set_tcp6, set_udp4, set_udp6, set_ip, insert}
use enr.Enr.Decode.{is_keyof_u16, decode, from_str}
use enr.Enr.Exchange.{decode-Reaches}
use enr.Enr.RoundTrip.{decode-encode}
use enr.Enr.Reserved.{check_spec_reserved_keys, check_port}
use enr.Enr.Valid.{IsOwned, IsValid, encode_uint-IsSoundEntry}
use enr.Enr.Update.{insert_raw_rlp-IsOwned}
use enr.Enr.Outcome.{insert_outcome, seq_outcome}
use enr.Enr.Outcomes.{insert_raw_rlp-outcome, set_seq-outcome}
use enr.Enr.Revert.{stored_content, unsigned}
use enr.Enr.Seq.{set_seq-ok}
use enr.Enr.Socket.{set_socket, set_entries, entries}
use enr.Enr.RemoveInsert.{remove_insert, remove_all, insert_all, insert_one}
use enr.Keys.Laws.{Stores}
use enr.Enr.Reads.Typed.{PortTyped, getters_typed}
use enr.Enr.Reach.{Reaches, done, then_step, inserted, renumbered, Reaches-IsValid}
use enr.Tests.Rlp.{prefix_code, prefix_laws}
use enr.Tests.Crates.{sum_hash, pair_base64, pair_base64_laws}
use enr.Tests.Keys.{keys, keys_laws, keys_own}
use enr.Tests.Samples.{sample, content-IsSound, content, ended, sample-IsValid}

-- A port is stored.
abbrev with_port : Enr
with_port = ended (insert_raw_rlp keys keys tcp_key (prefix_code.encode_uint 9000) 7 [] sample)

abbrev last : Enr
last = record sample { seq = 18446744073709551615 }

-- A record without an identity scheme.
abbrev blank : Enr
blank = record sample { content = [] }

abbrev counted : Enr
counted = record (unsigned keys tcp_key (prefix_code.encode_uint 9000) 7 blank) { seq = 2 }

abbrev fifth : Enr
fifth = ended (set_seq keys 5 7 [] sample)

-- A port is stored, and then the sequence number is changed.
abbrev both : Enr
both = ended (set_seq keys 5 7 [] with_port)

-- What the runs of the single updates return.
record Runs : Type 0 where
  with_port_ran :
      insert_raw_rlp keys keys tcp_key (prefix_code.encode_uint 9000) 7 [] sample
      ≡ ret (ok none, with_port)
  -- A port that is no number is refused.
  bad_port :
      check_spec_reserved_keys keys tcp_key (0 ∷ []) ≡ ret (err (invalid_rlp_data (text "error")))
  with_port_signed :
      compute_signature keys [] 7
        (record (unsigned keys tcp_key (prefix_code.encode_uint 9000) 7 sample) { seq = 2 })
      ≡ ret (ok with_port.signature)
  with_port_fits :
      ltb max_enr_size (size (unsigned keys tcp_key (prefix_code.encode_uint 9000) 7 sample))
      ≡ false
  with_port_named : of_public_key keys.public_key 7 ≡ ret with_port.node_id
  with_port_counted : with_port.seq ≡ 2
  with_port_content :
      with_port.content ≡ stored_content keys tcp_key (prefix_code.encode_uint 9000) 7 content
  with_port_small : ltb max_enr_size (size with_port) ≡ false
  port_accepted : check_spec_reserved_keys keys tcp_key (prefix_code.encode_uint 9000) ≡ ret (ok tt)
  last_fits :
      ltb max_enr_size (size (unsigned keys tcp_key (prefix_code.encode_uint 9000) 7 last)) ≡ false
  blank_fits :
      ltb max_enr_size (size (unsigned keys tcp_key (prefix_code.encode_uint 9000) 7 blank)) ≡ false
  no_scheme : compute_signature keys [] 7 counted ≡ ret (err unsupported_identity_scheme)
  refused_seq : set_seq keys 5 7 [] blank ≡ ret (err unsupported_identity_scheme, blank)
  fifth_ran : set_seq keys 5 7 [] sample ≡ ret (ok tt, fifth)
  seven_stored : Stores keys 7 content
  both_ran : set_seq keys 5 7 [] with_port ≡ ret (ok tt, both)
  seven_stays : Stores keys 7 with_port.content

runs : Runs
unfolding insert_raw_rlp check_spec_reserved_keys check_port is_keyof_u16 compare_bytes store commit
    sign compute_signature id get get_raw_rlp BtreeMap.get BtreeMap.insert BtreeMap.remove
    from_utf8_lossy Encode.rlp_content Encode.append_rlp_content Encode.size Encode.encode
    K256.sign_v4 of_public_key K256.encode_uncompressed set_seq set_socket set_entries entries
    remove_insert remove_all insert_all insert_one set_tcp4 set_tcp6 set_udp4 set_udp6 set_ip insert
    get_decodable
runs = record {
  with_port_ran = refl;
  bad_port = refl;
  with_port_signed = refl;
  with_port_fits = refl;
  with_port_named = refl;
  with_port_counted = refl;
  with_port_content = refl;
  with_port_small = refl;
  port_accepted = refl;
  last_fits = refl;
  blank_fits = refl;
  no_scheme = refl;
  refused_seq = refl;
  fifth_ran = refl;
  seven_stored = refl;
  both_ran = refl;
  seven_stays = refl;
}

insert_raw_rlp-IsOwned_example : IsOwned keys 7 with_port × (size with_port ≤ max_enr_size)
insert_raw_rlp-IsOwned_example =
    insert_raw_rlp-IsOwned keys keys prefix_laws keys_laws keys_own tcp_key
      (prefix_code.encode_uint 9000) 7 [] sample with_port content-IsSound
      (encode_uint-IsSoundEntry prefix_laws tcp_key 9000 (omega arith)) runs.with_port_ran

two_steps : Reaches keys keys sample both
two_steps =
    then_step
      (then_step done (
        inserted tcp_key (prefix_code.encode_uint 9000) 7 [] none
          (encode_uint-IsSoundEntry prefix_laws tcp_key 9000 (omega arith)) runs.with_port_ran))
      (renumbered 5 7 [] (omega arith) runs.seven_stays runs.both_ran)

Reaches-IsValid_example : IsValid keys both
Reaches-IsValid_example =
    Reaches-IsValid keys keys prefix_laws keys_laws keys_own sample both sample-IsValid two_steps

getters_typed_example :
    (id both ≡ ret (some v4))
    × ((p : ℕ) × (public_key keys both ≡ ret p)
        × (of_public_key keys.public_key p ≡ ret both.node_id)
        × (keys.verify_v4 p (rlp_content both) both.signature ≡ true))
    × PortTyped tcp4 tcp_key both
    × PortTyped tcp6 tcp6_key both
    × PortTyped udp4 udp_key both
    × PortTyped udp6 udp6_key both
getters_typed_example =
    getters_typed prefix_laws keys both (
      Reaches-IsValid keys keys prefix_laws keys_laws keys_own sample both sample-IsValid two_steps)

sample_small : size sample ≤ max_enr_size
unfolding size Encode.encode Encode.append_rlp_content
sample_small = omega arith

both_small : size both ≤ max_enr_size
both_small =
    let (owned, _) =
      insert_raw_rlp-IsOwned keys keys prefix_laws keys_laws keys_own tcp_key
        (prefix_code.encode_uint 9000) 7 [] sample with_port content-IsSound
        (encode_uint-IsSoundEntry prefix_laws tcp_key 9000 (omega arith)) runs.with_port_ran in
    (set_seq-ok keys keys_laws keys_own 5 7 [] with_port both (omega arith) owned.valid.sound
      runs.seven_stays runs.both_ran).2

decode-Reaches_example :
    (decode keys (Encode.encode both) ≡ ret (ok both))
    × (from_str keys (Encode.to_base64 both) ≡ ret (ok both))
decode-Reaches_example =
    decode-Reaches prefix_laws pair_base64_laws keys keys keys_laws keys_own (Encode.encode sample)
      sample both (decode-encode prefix_laws keys sample sample-IsValid sample_small) two_steps
      both_small

insert_raw_rlp-outcome_example :
    insert_raw_rlp keys keys tcp_key (prefix_code.encode_uint 9000) 7 [] last
    ≡ insert_outcome keys keys tcp_key (prefix_code.encode_uint 9000) 7 [] last
insert_raw_rlp-outcome_example =
    insert_raw_rlp-outcome keys keys tcp_key (prefix_code.encode_uint 9000) 7 [] last
      content-IsSound.sorted

set_seq-outcome_example : set_seq keys 5 7 [] blank ≡ seq_outcome keys 5 7 [] blank
set_seq-outcome_example = set_seq-outcome keys 5 7 [] blank
