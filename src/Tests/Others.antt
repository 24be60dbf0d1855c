-- ===== src/Tests/Others.antt =====
-- Runs of the builder with addresses, of comparisons, and of identifiers.
use enr.Prelude.{
  ◌≡◌, refl, [], ◌∷◌, ◌++◌, ok, err, ret, panic, Panics, Result, some, true, false, replicate,
}
use enr.Bytes.{Bytes, compare_bytes, from_utf8_lossy, text}
use enr.BtreeMap
use enr.Error.{EnrError, unsupported_identity_scheme}
use enr.NodeId
use enr.NodeId.{NodeId, of_public_key}
use enr.NodeId.Laws.{zeros}
use enr.Keys.K256
use enr.Keys.Combined.{CombinedKey, generate_secp256k1, generate_ed25519}
use enr.Enr.Defs.{Enr, v4_addr, v6_addr, SocketAddrV4, v4_socket}
use enr.Enr.Encode
use enr.Enr.Encode.{compare_content, enr_eq, hash_input, size, encode}
use enr.Enr.Getters.{
  id, get, get_raw_rlp, get_decodable, ip4, ip6, tcp4, tcp6, udp4, udp6, udp4_socket, udp6_socket,
  tcp4_socket, tcp6_socket, is_udp_reachable, is_tcp_reachable,
}
use enr.Enr.Reserved.{check_id}
use enr.Enr.Sign.{commit, sign, compute_signature}
use enr.Enr.Socket.{set_socket, set_udp_socket, set_tcp_socket, set_entries, entries}
use enr.Builder
use enr.Tests.Rlp.{prefix_code}
use enr.Tests.Crates.{sum_hash, pair_hex}
use enr.Tests.Keys.{keys, small_secrets}
use enr.Tests.Samples.{sample, ended}

abbrev with_addresses : Builder.Builder
with_addresses = Builder.udp6 30306 (
    Builder.udp4 30304 (
      Builder.tcp6 30305 (
        Builder.tcp4 30303 (
          Builder.ip (v6_addr (replicate 16 1))
            (Builder.ip (v4_addr (127 ∷ 0 ∷ 0 ∷ 1 ∷ [])) (Builder.seq 9 Builder.default))))))

abbrev built : Panics (Result EnrError Enr × Builder.Builder) → Enr
built (ret (ok e, b)) = e
built (ret (err x, b)) = sample
built panic = sample

abbrev addressed : Enr
addressed = built (Builder.build keys 7 [] with_addresses)

abbrev localhost6 : Bytes
localhost6 = replicate 16 1

-- The sockets of a built record.
sockets_built :
    (addressed.seq ≡ 9)
    × (udp4_socket addressed ≡ ret (some (record { ip = 127 ∷ 0 ∷ 0 ∷ 1 ∷ []; port = 30304 })))
    × (tcp4_socket addressed ≡ ret (some (record { ip = 127 ∷ 0 ∷ 0 ∷ 1 ∷ []; port = 30303 })))
    × (udp6_socket addressed
        ≡ ret (some (record { ip = localhost6; port = 30306; flowinfo = 0; scope_id = 0 })))
    × (tcp6_socket addressed
        ≡ ret (some (record { ip = localhost6; port = 30305; flowinfo = 0; scope_id = 0 })))
    × (is_udp_reachable addressed ≡ ret true)
    × (is_tcp_reachable addressed ≡ ret true)
unfolding Builder.build Builder.default Builder.seq Builder.first_invalid Builder.finish
    Builder.signature Builder.rlp_content Builder.add_public_key Builder.add_value_rlp
    Builder.add_value Builder.ip Builder.ip4 Builder.ip6 Builder.tcp4 Builder.tcp6 Builder.udp4
    Builder.udp6 compare_bytes BtreeMap.insert BtreeMap.get K256.sign_v4 of_public_key
    K256.encode_uncompressed udp4_socket udp6_socket tcp4_socket tcp6_socket is_udp_reachable
    is_tcp_reachable ip4 ip6 tcp4 tcp6 udp4 udp6 get get_decodable get_raw_rlp
sockets_built = (refl, refl, refl, refl, refl, refl, refl)

-- A record with another signature differs, and has the same content.
abbrev resigned : Enr
resigned = record sample { signature = [] }

compared :
    (enr_eq sample sample ≡ true)
    × (enr_eq sample resigned ≡ false)
    × (compare_content sample resigned ≡ true)
    × (hash_input resigned ≡ (1, sample.node_id.raw, []))
unfolding enr_eq compare_content hash_input compare_bytes Encode.rlp_content
    Encode.append_rlp_content
compared = (refl, refl, refl, refl)

-- The two protocols store their port under their own keys.
abbrev home : SocketAddrV4
home = record { ip = 127 ∷ 0 ∷ 0 ∷ 1 ∷ []; port = 30303 }

protocols :
    (udp4 (ended (set_udp_socket keys (v4_socket home) 7 [] sample)) ≡ some 30303)
    × (tcp4 (ended (set_tcp_socket keys (v4_socket home) 7 [] sample)) ≡ some 30303)
unfolding set_udp_socket set_tcp_socket set_socket set_entries entries commit sign compute_signature
    id get get_raw_rlp get_decodable udp4 tcp4 BtreeMap.get BtreeMap.insert compare_bytes
    from_utf8_lossy Encode.rlp_content Encode.append_rlp_content size encode K256.sign_v4
    of_public_key K256.encode_uncompressed
protocols = (refl, refl)

-- Only `v4` is an identity scheme.
schemes :
    (check_id (prefix_code.encode_bytes (text "v4")) ≡ ok tt)
    × (check_id (prefix_code.encode_bytes (text "v5")) ≡ err unsupported_identity_scheme)
unfolding check_id compare_bytes
schemes = (refl, refl)

generated :
    (generate_secp256k1 small_secrets (1 ∷ 2 ∷ []) ≡ CombinedKey.secp256k1 2)
    × (generate_ed25519 small_secrets (1 ∷ []) ≡ CombinedKey.ed25519 1)
unfolding generate_secp256k1 generate_ed25519
generated = (refl, refl)

-- An identifier is displayed by its first and its last two bytes.
displayed :
    (NodeId.as_ref (NodeId.new (zeros 32)) ≡ zeros 32)
    × (NodeId.display (NodeId.new (1 ∷ 2 ∷ zeros 30))
        ≡ text "0x"
          ++ (pair_hex.encode (1 ∷ 2 ∷ []) ++ (text ".." ++ pair_hex.encode (0 ∷ 0 ∷ []))))
    × (NodeId.debug (NodeId.new (1 ∷ [])) ≡ text "0x" ++ pair_hex.encode (1 ∷ []))
unfolding NodeId.new NodeId.as_ref NodeId.display NodeId.debug
displayed = (refl, refl, refl)
