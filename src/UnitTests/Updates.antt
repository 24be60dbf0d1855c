-- ===== src/UnitTests/Updates.antt =====
-- The tests of src/lib.rs that change a record.
use enr.Prelude.{ℕ, ◌/◌, ◌%◌, [], ◌∷◌, Bool, ◌&&◌, not, none, some, Panics}
use enr.Prelude.{◌==◌ as nat_eq}
use enr.Prelude.Panicking.{◌>>=◌}
use enr.Bytes.{Bytes, text, ◌==◌, v4, tcp_key}
use enr.Crates.Rlp.{Rlp, begin_list, append_raw}
use enr.Crates.Hashing.{Keccak256}
use enr.NodeId.{node_id_eq}
use enr.Keys.Traits.{Entropy, EnrKey}
use enr.Enr.Defs.{SocketAddrV4, v4_addr, v4_socket}
use enr.Enr.Getters.{id, ip4, tcp4, get, node_id, udp4_socket, signature}
use enr.Enr.Encode.{public_key, verify, compare_content, enr_eq}
use enr.Enr.Format.{clone}
use enr.Enr.Setters.{insert, set_ip}
use enr.Enr.Sign.{set_seq}
use enr.Enr.Socket.{set_udp_socket}
use enr.Enr.RemoveInsert.{remove_insert}
use enr.Builder
use enr.Builder.{builder}
use enr.UnitTests.Assert.{assert, option_eq, unwrap_on, first}
use enr.UnitTests.Codecs.{built}

-- `u16::to_be_bytes`
abbrev pub to_be_bytes : ℕ → Bytes
to_be_bytes n = (n / 256) ∷ (n % 256) ∷ []

abbrev socket_eq : SocketAddrV4 → SocketAddrV4 → Bool
socket_eq a b = a.ip == b.ip && nat_eq a.port b.port

module _ ⦃rlp : Rlp⦄ ⦃keccak : Keccak256⦄ {K P S V : Type 0} (keys : EnrKey K P) (k256 : EnrKey S V)
    (key : K) (rng rng' : Entropy) where
  unfoldable pub test_add_key : Panics (Unit {0})
  test_add_key = do
    let ip = 10 ∷ 0 ∷ 0 ∷ 1 ∷ []
    enr ← built keys key rng (Builder.tcp4 30303 (Builder.ip4 ip builder))
    (_, enr) ← unwrap_on (insert keys k256 rlp.encode_bytes (text "random") [] key rng') enr
    valid ← verify keys enr
    assert valid

  unfoldable pub test_set_ip : Panics (Unit {0})
  test_set_ip = do
    let ip = 10 ∷ 0 ∷ 0 ∷ 1 ∷ []
    enr ← built keys key rng (Builder.tcp4 30303 builder)
    (_, enr) ← unwrap_on (set_ip keys k256 (v4_addr ip) key rng') enr
    scheme ← id enr
    _ ← assert (option_eq ◌==◌ scheme (some v4))
    address ← ip4 enr
    _ ← assert (option_eq ◌==◌ address (some ip))
    _ ← assert (option_eq nat_eq (tcp4 enr) (some 30303))
    valid ← verify keys enr
    _ ← assert valid
    public ← public_key keys enr
    assert (keys.encode public == keys.encode (keys.public key))

module _ ⦃rlp : Rlp⦄ ⦃keccak : Keccak256⦄ {K P : Type 0} (keys : EnrKey K P) (key : K)
    (rng rng' : Entropy) where
  unfoldable pub ip_mutation_static_node_id : Panics (Unit {0})
  ip_mutation_static_node_id = do
    let ip = 10 ∷ 0 ∷ 0 ∷ 1 ∷ []
    enr ← built keys key rng (Builder.udp4 30304 (Builder.tcp4 30303 (Builder.ip4 ip builder)))
    let before = node_id enr
    let socket : SocketAddrV4 = record { ip = 192 ∷ 168 ∷ 0 ∷ 1 ∷ []; port = 800 }
    (_, enr) ← unwrap_on (set_udp_socket keys (v4_socket socket) key rng') enr
    _ ← assert (node_id_eq before (node_id enr))
    udp ← udp4_socket enr
    assert (option_eq socket_eq udp (some socket))

  unfoldable pub test_remove_insert : Panics (Unit {0})
  test_remove_insert = do
    let topics = rlp.out (
        append_raw (rlp.encode_bytes (text "eth_syncing"))
          (append_raw (rlp.encode_bytes (text "lighthouse")) (begin_list 2)))
    enr ← built keys key rng (Builder.tcp4 30303 builder)
    _ ← assert (option_eq nat_eq (tcp4 enr) (some 30303))
    unset ← get enr (text "topics")
    _ ← assert (option_eq ◌==◌ unset none)
    (results, enr) ←
        unwrap_on (remove_insert keys (tcp_key ∷ []) ((text "topics", topics) ∷ []) key rng') enr
    removed ← first results.0
    _ ← assert (option_eq ◌==◌ removed (some (rlp.encode_bytes (to_be_bytes 30303))))
    inserted ← first results.1
    _ ← assert (option_eq ◌==◌ inserted none)
    _ ← assert (option_eq nat_eq (tcp4 enr) none)
    stored ← get enr (text "topics")
    _ ← assert (option_eq ◌==◌ stored (some topics))
    public ← public_key keys enr
    assert (keys.encode public == keys.encode (keys.public key))

  -- The third signature draws `rng''`.
  unfoldable pub test_compare_content : Entropy → Panics (Unit {0})
  test_compare_content rng'' = do
    let ip = 10 ∷ 0 ∷ 0 ∷ 1 ∷ []
    enr1 ← built keys key rng (Builder.tcp4 30303 (Builder.ip4 ip builder))
    (_, enr2) ← unwrap_on (set_seq keys 1 key rng') (clone enr1)
    (_, enr3) ← unwrap_on (set_seq keys 2 key rng'') (clone enr1)
    _ ← assert (not (signature enr1 == signature enr2))
    _ ← assert (compare_content enr1 enr2)
    _ ← assert (not (enr_eq enr1 enr2))
    _ ← assert (not (signature enr1 == signature enr3))
    _ ← assert (not (compare_content enr1 enr3))
    assert (not (enr_eq enr1 enr3))
