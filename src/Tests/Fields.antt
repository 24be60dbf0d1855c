-- ===== src/Tests/Fields.antt =====
-- Runs of the single setters.
use enr.Prelude.{◌≡◌, refl, [], ◌∷◌, ok, err, ret, none, some, replicate, Option}
use enr.Bytes.{Bytes, compare_bytes, from_utf8_lossy, ip_key, ip6_key}
use enr.BtreeMap
use enr.Error.{invalid_rlp_data}
use enr.NodeId.{of_public_key}
use enr.Keys.K256
use enr.Enr.Defs.{Enr, v4_addr, v6_addr, IpAddr}
use enr.Enr.Encode
use enr.Enr.Encode.{size}
use enr.Enr.Getters.{id, get, get_raw_rlp, get_decodable, ip4}
use enr.Enr.Sign.{commit, sign, compute_signature, set_seq}
use enr.Enr.Setters.{
  insert_raw_rlp, store, set_tcp4, set_tcp6, set_udp4, set_udp6, set_ip, insert, set_public_key,
}
use enr.Enr.Decode.{is_keyof_u16}
use enr.Enr.Reserved.{check_spec_reserved_keys, check_port, check_ip, check_ip6}
use enr.Enr.Socket.{set_socket, set_entries, entries}
use enr.Enr.RemoveInsert.{remove_insert, remove_all, insert_all, insert_one}
use enr.Tests.Rlp.{prefix_code, prefix_laws}
use enr.Tests.Crates.{sum_hash}
use enr.Tests.Keys.{keys, keys_laws}
use enr.Tests.Samples.{sample, content-IsSound, content, ended}
use enr.BtreeMap.Laws.{IsSorted, insert-IsSorted}
use enr.Enr.Reads.Addresses.{set_ip-ip4}
use enr.Enr.Reads.PublicKey.{set_public_key_refused}

abbrev with_tcp4 : Enr
with_tcp4 = ended (set_tcp4 keys keys 9000 7 [] sample)

abbrev old_ip4 : Bytes
old_ip4 = 10 ∷ 0 ∷ 0 ∷ 1 ∷ []

abbrev old_ip6 : Bytes
old_ip6 = replicate 16 1

abbrev addressed : Enr
addressed = record sample {
  content =
      BtreeMap.insert ip_key (prefix_code.encode_bytes old_ip4)
        (BtreeMap.insert ip6_key (prefix_code.encode_bytes old_ip6) content);
}

abbrev new_ip4 : Bytes
new_ip4 = 10 ∷ 0 ∷ 0 ∷ 2 ∷ []

abbrev with_ip4 : Enr
with_ip4 = ended (set_ip keys keys (v4_addr new_ip4) 7 [] addressed)

abbrev no_address : Option IpAddr
no_address = none

abbrev new_ip6 : Bytes
new_ip6 = replicate 16 2

abbrev with_ip6 : Enr
with_ip6 = ended (set_ip keys keys (v6_addr new_ip6) 7 [] addressed)

-- What the runs of the setters return.
record Runs : Type 0 where
  with_tcp4_ran : set_tcp4 keys keys 9000 7 [] sample ≡ ret (ok none, with_tcp4)
  stored_ip4 : get_raw_rlp addressed ip_key ≡ some (prefix_code.encode_bytes old_ip4)
  stored_ip6 : get_raw_rlp addressed ip6_key ≡ some (prefix_code.encode_bytes old_ip6)
  with_ip4_ran : set_ip keys keys (v4_addr new_ip4) 7 [] addressed ≡ ret (ok none, with_ip4)
  with_ip6_ran : set_ip keys keys (v6_addr new_ip6) 7 [] addressed ≡ ret (ok none, with_ip6)

runs : Runs
unfolding insert_raw_rlp check_spec_reserved_keys check_port is_keyof_u16 compare_bytes store commit
    sign compute_signature id get get_raw_rlp BtreeMap.get BtreeMap.insert BtreeMap.remove
    from_utf8_lossy Encode.rlp_content Encode.append_rlp_content Encode.size Encode.encode
    K256.sign_v4 of_public_key K256.encode_uncompressed set_seq set_socket set_entries entries
    remove_insert remove_all insert_all insert_one set_tcp4 set_tcp6 set_udp4 set_udp6 set_ip insert
    get_decodable check_ip check_ip6
runs = record {
  with_tcp4_ran = refl;
  stored_ip4 = refl;
  stored_ip6 = refl;
  with_ip4_ran = refl;
  with_ip6_ran = refl;
}

addressed-IsSorted : IsSorted addressed.content
addressed-IsSorted =
    insert-IsSorted ip_key _ _ (insert-IsSorted ip6_key _ content content-IsSound.sorted)

set_ip-ip4_example : (ip4 with_ip4 ≡ ret (some new_ip4)) × (no_address ≡ none)
set_ip-ip4_example =
    set_ip-ip4 keys keys prefix_laws keys_laws new_ip4 old_ip4 7 [] addressed with_ip4 refl refl
      addressed-IsSorted runs.stored_ip4 runs.with_ip4_ran

set_public_key_refused_example :
    (s : Bytes) × (set_public_key keys keys 7 7 [] sample ≡ ret (err (invalid_rlp_data s), sample))
set_public_key_refused_example = set_public_key_refused keys keys prefix_laws 7 7 [] sample refl
