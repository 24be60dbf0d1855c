-- ===== src/Tests/Batches.antt =====
-- Runs of `set_socket` and `remove_insert`.
use enr.Prelude.{
  ◌<◌, ◌^◌, ◌≡◌, ◌↔◌, ◌≤◌, refl, [], ◌∷◌, ok, err, ret, none, arith, true, ltb, replicate, Option,
  List, some,
}
use enr.Bytes.{
  Bytes, compare_bytes, text, from_utf8_lossy, id_key, tcp_key, tcp6_key, udp_key, udp6_key,
}
use enr.BtreeMap
use enr.Error.{invalid_rlp_data, exceeds_max_size}
use enr.NodeId.{of_public_key}
use enr.Keys.K256
use enr.Enr.Defs.{Enr, max_enr_size, SocketAddrV4, SocketAddrV6, SocketAddr, v4_socket}
use enr.Enr.Encode
use enr.Enr.Encode.{size}
use enr.Enr.Getters.{
  id, get, get_raw_rlp, tcp4_socket, tcp6_socket, udp4_socket, udp6_socket, is_udp_reachable,
  is_tcp_reachable, get_decodable,
}
use enr.Enr.Sign.{commit, sign, compute_signature, set_seq}
use enr.Enr.Setters.{insert_raw_rlp, store, set_tcp4, set_tcp6, set_udp4, set_udp6, set_ip, insert}
use enr.Enr.Decode.{is_keyof_u16}
use enr.Enr.Reserved.{check_spec_reserved_keys, check_port}
use enr.Enr.Valid.{IsOwned}
use enr.Enr.Socket.{set_socket, set_entries, entries}
use enr.Enr.RemoveInsert.{remove_insert, remove_all, insert_all, insert_one}
use enr.Enr.Reads.Stored.{IsSocketV4, IsSocketV6}
use enr.Enr.Reads.Reachable.{HasSocket, sockets_iff, reachable_iff}
use enr.Enr.Reads.Sockets.{set_socket-socket}
use enr.Tests.Rlp.{prefix_code, prefix_laws}
use enr.Tests.Crates.{sum_hash}
use enr.Tests.Keys.{keys, keys_laws, keys_own}
use enr.Tests.Samples.{sample, content-IsSound, content, ended}
use enr.Enr.Outcome.{socket_outcome, remove_insert_outcome}
use enr.Enr.Outcomes.{set_socket-outcome}
use enr.Enr.Outcomes.Batch.{remove_insert-outcome}
use enr.Enr.SocketUpdate.{set_socket-IsOwned, with_entries}
use enr.Enr.Removal.{inserted, taken, replaced}
use enr.Enr.Removal.Update.{prepared, remove_insert-IsOwned}

abbrev address : SocketAddr
address = v4_socket (record { ip = 10 ∷ 0 ∷ 0 ∷ 1 ∷ []; port = 9000 })

abbrev with_socket : Enr
with_socket = ended (set_socket keys address 7 true [] sample)

-- A record of the full size.
abbrev full : Enr
full = record sample { content = (text "long", replicate 290 1) ∷ [] }

abbrev changed : Enr
changed = ended (remove_insert keys (tcp_key ∷ []) ((text "topics", 5 ∷ []) ∷ []) 7 [] sample)

abbrev nothing_replaced : List (Option Bytes) × List (Option Bytes)
nothing_replaced = (none ∷ [], none ∷ [])

abbrev endpoint : SocketAddrV4
endpoint = record { ip = 10 ∷ 0 ∷ 0 ∷ 1 ∷ []; port = 9000 }

abbrev endpoint6 : SocketAddrV6
endpoint6 = record { ip = replicate 16 1; port = 9000; flowinfo = 0; scope_id = 0 }

-- What the runs of the sockets and the batches return.
record Runs : Type 0 where
  with_socket_ran : set_socket keys address 7 true [] sample ≡ ret (ok tt, with_socket)
  full_big : ltb max_enr_size (size (with_entries keys (entries address true) 7 full)) ≡ true
  changed_ran :
      remove_insert keys (tcp_key ∷ []) ((text "topics", 5 ∷ []) ∷ []) 7 [] sample
      ≡ ret (ok (none ∷ [], none ∷ []), changed)
  too_long_ran :
      remove_insert keys [] ((text "long", replicate 290 1) ∷ []) 7 [] sample
      ≡ ret (err exceeds_max_size, sample)

runs : Runs
unfolding insert_raw_rlp check_spec_reserved_keys check_port is_keyof_u16 compare_bytes store commit
    sign compute_signature id get get_raw_rlp BtreeMap.get BtreeMap.insert BtreeMap.remove
    from_utf8_lossy Encode.rlp_content Encode.append_rlp_content Encode.size Encode.encode
    K256.sign_v4 of_public_key K256.encode_uncompressed set_seq set_socket set_entries entries
    remove_insert remove_all insert_all insert_one set_tcp4 set_tcp6 set_udp4 set_udp6 set_ip insert
    get_decodable
runs = record { with_socket_ran = refl; full_big = refl; changed_ran = refl; too_long_ran = refl }

port_range : (entries address true).port < 2 ^ 16
unfolding entries
port_range = omega arith

with_socket-IsOwned : IsOwned keys 7 with_socket × (with_socket.seq ≡ 2)
with_socket-IsOwned =
    set_socket-IsOwned keys prefix_laws keys_laws keys_own address 7 true [] sample with_socket
      content-IsSound port_range runs.with_socket_ran

remove_insert-IsOwned_example :
    IsOwned keys 7 changed
    × (size changed ≤ max_enr_size)
    × (changed.seq ≡ 2)
    × (changed.content
        ≡ inserted ((text "topics", 5 ∷ []) ∷ []) (prepared keys (tcp_key ∷ []) 7 content))
    × (nothing_replaced ≡ (
      taken (tcp_key ∷ []) content,
      replaced ((text "topics", 5 ∷ []) ∷ []) (prepared keys (tcp_key ∷ []) 7 content),
    ))
remove_insert-IsOwned_example =
    remove_insert-IsOwned keys prefix_laws keys_laws keys_own (tcp_key ∷ [])
      ((text "topics", 5 ∷ []) ∷ []) 7 [] sample changed content-IsSound ((λ e. ground arith), tt)
      runs.changed_ran

three_bytes :
    check_port (prefix_code.encode_bytes (1 ∷ 2 ∷ 3 ∷ [])) ≡ err (invalid_rlp_data (text "error"))
unfolding check_port
three_bytes = refl

tcp_is_port : is_keyof_u16 tcp_key ≡ true
unfolding is_keyof_u16 compare_bytes
tcp_is_port = refl

set_socket-socket_example :
    (tcp4_socket with_socket ≡ ret (some endpoint)) × (is_tcp_reachable with_socket ≡ ret true)
set_socket-socket_example =
    set_socket-socket keys keys_laws prefix_laws endpoint 7 true [] sample with_socket refl
      (omega arith) content-IsSound.sorted runs.with_socket_ran

sockets_iff_example :
    ((udp4_socket with_socket ≡ ret (some endpoint)) ↔ IsSocketV4 udp_key with_socket endpoint)
    × ((tcp4_socket with_socket ≡ ret (some endpoint)) ↔ IsSocketV4 tcp_key with_socket endpoint)
    × ((udp6_socket with_socket ≡ ret (some endpoint6)) ↔ IsSocketV6 udp6_key with_socket endpoint6)
    × ((tcp6_socket with_socket ≡ ret (some endpoint6)) ↔ IsSocketV6 tcp6_key with_socket endpoint6)
sockets_iff_example = sockets_iff with_socket endpoint endpoint6

reachable_iff_example :
    ((is_udp_reachable with_socket ≡ ret true) ↔ HasSocket udp_key udp6_key with_socket)
    × ((is_tcp_reachable with_socket ≡ ret true) ↔ HasSocket tcp_key tcp6_key with_socket)
reachable_iff_example = reachable_iff prefix_laws with_socket with_socket-IsOwned.0.valid.sound

set_socket-outcome_example :
    set_socket keys address 7 true [] full ≡ socket_outcome keys address 7 true [] full
set_socket-outcome_example = set_socket-outcome keys address 7 true [] full (tt, tt)

remove_insert-outcome_example :
    remove_insert keys (id_key ∷ []) ((tcp_key, 1 ∷ 2 ∷ 3 ∷ []) ∷ []) 7 [] sample
    ≡ remove_insert_outcome keys (id_key ∷ []) ((tcp_key, 1 ∷ 2 ∷ 3 ∷ []) ∷ []) 7 [] sample
remove_insert-outcome_example =
    remove_insert-outcome keys (id_key ∷ []) ((tcp_key, 1 ∷ 2 ∷ 3 ∷ []) ∷ []) 7 [] sample
