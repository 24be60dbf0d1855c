-- ===== src/UnitTests/Passes/Records.antt =====
-- The test that changes a record's socket, over any crates.
use enr.Prelude.{◌≡◌, refl, [], ◌∷◌, false, ok, ret, arith}
use enr.Bytes.{Bytes}
use enr.Bytes.Laws.{compare_refl}
use enr.Crates.Rlp.{Rlp, RlpLaws}
use enr.Crates.Hashing.{Keccak256, KeccakLaws}
use enr.NodeId.{of_public_key}
use enr.Keys.Traits.{Entropy, EnrKey}
use enr.Keys.Laws.{KeyLaws, IsUnambiguous, IsCompact}
use enr.Enr.Defs.{Enr, SocketAddrV4, v4_socket}
use enr.Enr.Encode.{public_key}
use enr.Enr.Getters.{node_id}
use enr.Enr.Room.Updates.{set_socket_fits}
use enr.Enr.Socket.{entries, set_udp_socket}
use enr.Enr.SocketUpdate.{set_socket-IsOwned}
use enr.Enr.Reads.Sockets.{set_socket-socket}
use enr.Enr.Valid.{IsOwned}
use enr.Builder
use enr.Builder.{builder, default, add_value, add_value_rlp}
use enr.UnitTests.Updates.{ip_mutation_static_node_id}
use enr.UnitTests.Passes.{started, builder-IsLight, tcp4-IsLight, udp4-IsLight, ip4-IsLight}

module _ ⦃rlp : Rlp⦄ (law : RlpLaws rlp) ⦃keccak : Keccak256⦄ {K P : Type 0} (keys : EnrKey K P)
    (compact : IsCompact keys) (keccak_law : KeccakLaws keccak) (key_law : KeyLaws keys)
    (own : IsUnambiguous keys) (key : K)
    (signs : (rng : Entropy) (msg : Bytes)
      → (sig : Bytes) × (keys.sign_v4 rng key msg ≡ ok sig)) where
  -- A signer's record is named after the signer.
  owner_named :
      (e : Enr)
      → IsOwned keys key e
      → of_public_key keys.public_key (keys.public key) ≡ ret e.node_id
  unfolding public_key
  owner_named e o =
      let same : o.valid.public ≡ keys.public key = ground (arith, o.owner, o.valid.known) in
      rw (← same) o.valid.identified

  pub ip_mutation_static_node_id_passes :
      (rng rng' : Entropy) → ip_mutation_static_node_id keys key rng rng' ≡ ret tt
  unfolding ip_mutation_static_node_id set_udp_socket entries node_id
  ip_mutation_static_node_id_passes rng rng' =
      let ip = 10 ∷ 0 ∷ 0 ∷ 1 ∷ [] in
      let b = Builder.udp4 30304 (Builder.tcp4 30303 (Builder.ip4 ip builder)) in
      let light = udp4-IsLight law 30304 30 _ (omega arith) (
        tcp4-IsLight law 30303 12 _ (omega arith)
          (ip4-IsLight law ip 0 builder refl builder-IsLight)) in
      let (e, builds, s) =
        started law keys compact keccak_law key_law own key signs 48 rng b (omega arith) light in
      let socket : SocketAddrV4 = record { ip = 192 ∷ 168 ∷ 0 ∷ 1 ∷ []; port = 800 } in
      let (e', ran, next) =
        set_socket_fits law keys compact keccak_law key_law (v4_socket socket) key false rng' e
          s.owned.valid.sound.sorted (omega arith) s.scheme (omega (arith, s.counted)) s.short
          (omega (arith, s.light, light.light)) (omega arith) (signs rng') in
      let owned =
        (set_socket-IsOwned keys law key_law own (v4_socket socket) key false rng' e e'
          s.owned.valid.sound (omega arith) ran).0 in
      let named : e.node_id ≡ e'.node_id =
        ground (arith, owner_named e s.owned, owner_named e' owned) in
      let (read, _) =
        set_socket-socket keys key_law law socket key false rng' e e' refl (omega arith)
          s.owned.valid.sound.sorted ran in
      rw (builds, ran, named, read)
        (ground (arith, compare_refl e'.node_id.raw, compare_refl socket.ip))
