-- ===== src/UnitTests/Passes/Ports.antt =====
-- The tests on small ports, over any crates.
use enr.Prelude.{
  ℕ, ◌/◌, ◌%◌, ◌^◌, ◌≤◌, ◌<◌, ◌≡◌, refl, sym, ap, ◌∙◌, List, [], ◌∷◌, true, some, Result, ok, err,
  Panics, ret, panic, All, arith,
}
use enr.Bytes.{Bytes, compare_bytes, tcp_key}
use enr.Bytes.Laws.{compare_refl}
use enr.BtreeMap
use enr.BtreeMap.Laws.{get-insert_self, get-insert_ne}
use enr.Crates.Rlp.{Rlp, RlpLaws}
use enr.Crates.Hashing.{Keccak256, KeccakLaws}
use enr.Error.{EnrError, invalid_rlp_data}
use enr.Keys.Traits.{Entropy, EnrKey}
use enr.Keys.Laws.{KeyLaws, IsUnambiguous, IsCompact}
use enr.Enr.Defs.{Enr, v4_socket}
use enr.Enr.Getters.{get_raw_rlp}
use enr.Enr.Encode.{verify}
use enr.Enr.Reserved.{check_port}
use enr.Enr.Socket.{entries}
use enr.Enr.SocketUpdate.{set_socket-IsOwned}
use enr.Enr.RoundTrip.{pair_items}
use enr.Enr.Room.Updates.{set_socket_fits}
use enr.Builder
use enr.Builder.{builder, build, empty}
use enr.UnitTests.Assert.{for_each}
use enr.UnitTests.Codecs.{built}
use enr.UnitTests.Updates.{to_be_bytes}
use enr.UnitTests.Ports.{
  low_int_ports, assert_tcp4, emptied, build_round, test_low_integer_build, set_socket_round,
  test_low_integer_set_socket,
}
use enr.UnitTests.Passes.{IsStarted, started, kept, builder-IsLight, tcp4-IsLight}
use enr.UnitTests.Passes.Codecs.{tcp4_stored}

for_each_passes :
    {A : Type 0} (xs : List A) (f : A → Panics (Unit {0}))
    → All (λ a. f a ≡ ret tt) xs
    → for_each xs f ≡ ret tt
for_each_passes [] f all = refl
for_each_passes (a ∷ xs) f (h, all) = rw h (for_each_passes xs f all)

pub low_int_ports_pass :
    (f : ℕ → Panics (Unit {0}))
    → ((port : ℕ) → port < 2 ^ 16 → f port ≡ ret tt)
    → for_each low_int_ports f ≡ ret tt
low_int_ports_pass f h =
    for_each_passes low_int_ports f
      (h 0 (omega arith), (h 30 (omega arith), (h 255 (omega arith), (h 30303 (omega arith), tt))))

-- The two bytes of a port are its code if it does not fit into one, and no port otherwise.
pub two_bytes :
    {r : Rlp} (law : RlpLaws r) (port : ℕ)
    → 256 ≤ port
    → port < 2 ^ 16
    → r.encode_bytes (to_be_bytes port) ≡ r.encode_uint port
two_bytes {r} law port low high =
    ap r.encode_bytes (sym (law.uint_digits_pair port low high)) ∙ sym (law.encode_uint_bytes port)

module _ ⦃rlp : Rlp⦄ (law : RlpLaws rlp) where
  pub low_port_refused :
      (port : ℕ)
      → port < 256
      → (x : Bytes) × (check_port (rlp.encode_bytes (to_be_bytes port)) ≡ err (invalid_rlp_data x))
  unfolding check_port
  low_port_refused port h =
      let high : port / 256 ≡ 0 = omega arith in
      let (x, refused) = law.decode_u16_leading (port % 256) in
      (rlp.to_string x, rw (high, refused) refl)

  pub assert_tcp4_passes :
      {K P : Type 0} (keys : EnrKey K P) (e : Enr) (tcp : ℕ)
      → verify keys e ≡ ret true
      → tcp < 2 ^ 16
      → BtreeMap.get tcp_key e.content ≡ some (rlp.encode_uint tcp)
      → assert_tcp4 keys e tcp ≡ ret tt
  unfolding assert_tcp4 get_raw_rlp
  assert_tcp4_passes keys e tcp valid range stored =
      let port = tcp4_stored law tcp e range stored in
      ground (arith, valid, stored, port, compare_refl (rlp.encode_uint tcp))

  module _ ⦃keccak : Keccak256⦄ {K P : Type 0} (keys : EnrKey K P) (compact : IsCompact keys)
      (keccak_law : KeccakLaws keccak) (key_law : KeyLaws keys) (own : IsUnambiguous keys) (key : K)
      (signs : (rng : Entropy) (msg : Bytes)
        → (sig : Bytes) × (keys.sign_v4 rng key msg ≡ ok sig)) where
    pub empty_lem :
        (rng : Entropy) (e : Enr)
        → built keys key rng builder ≡ ret e
        → empty keys key rng ≡ ret (ok e)
    unfolding empty
    empty_lem rng e h = by_result (build keys key rng builder) refl
      where
        by_result :
            (r : Panics (Result EnrError Enr × Builder.Builder))
            → build keys key rng builder ≡ r
            → empty keys key rng ≡ ret (ok e)
        by_result (ret (ok a, b)) i = ground (arith, i, h)
        by_result (ret (err x, b)) i = absurd (ground (arith, i, h))
        by_result panic i = absurd (ground (arith, i, h))

    -- The empty record.
    pub blank :
        (rng : Entropy)
        → (e : Enr) × (emptied keys key rng ≡ ret e)
          × IsStarted law keys compact keccak_law key_law own key signs builder e
    blank rng =
        let (e, builds, s) =
          started law keys compact keccak_law key_law own key signs 0 rng builder (omega arith)
            builder-IsLight in
        (e, rw (empty_lem rng e builds) refl, s)

    build_round_passes :
        (rng : Entropy) (tcp : ℕ) → tcp < 2 ^ 16 → build_round keys key rng tcp ≡ ret tt
    unfolding build_round Builder.tcp4 builder Builder.default Builder.add_value
        Builder.add_value_rlp BtreeMap.insert BtreeMap.get compare_bytes
    build_round_passes rng tcp range =
        let b = Builder.tcp4 tcp builder in
        let (e, builds, s) =
          started law keys compact keccak_law key_law own key signs 18 rng b (omega arith)
            (tcp4-IsLight law tcp 0 builder range builder-IsLight) in
        let stored =
          kept law keys compact keccak_law key_law own key signs tcp_key b e
            (λ i. ground (arith, i))
            (λ i. (key_law.enr_key-IsFree (keys.public key)).ne_tcp (sym i)) s in
        rw builds (assert_tcp4_passes keys e tcp s.owned.valid.verified range stored)

    pub test_low_integer_build_passes :
        (rng : ℕ → Entropy) → test_low_integer_build keys key rng ≡ ret tt
    unfolding test_low_integer_build
    test_low_integer_build_passes rng =
        low_int_ports_pass _ (λ tcp. build_round_passes (rng tcp) tcp)

    set_socket_round_passes :
        (rng rng' : Entropy) (tcp : ℕ)
        → tcp < 2 ^ 16
        → set_socket_round keys key rng rng' tcp ≡ ret tt
    unfolding set_socket_round entries pair_items builder Builder.default
    set_socket_round_passes rng rng' tcp range =
        let socket = v4_socket (record { ip = 127 ∷ 0 ∷ 0 ∷ 1 ∷ []; port = tcp }) in
        let (e, empties, s) = blank rng in
        let (e', ran, next) =
          set_socket_fits law keys compact keccak_law key_law socket key true rng' e
            s.owned.valid.sound.sorted range s.scheme (omega (arith, s.counted)) s.short
            (omega (arith, s.light)) (omega arith) (signs rng') in
        let owned =
          (set_socket-IsOwned keys law key_law own socket key true rng' e e' s.owned.valid.sound
            range ran).0 in
        let stored : BtreeMap.get tcp_key e'.content ≡ some (rlp.encode_uint tcp) =
          ap (BtreeMap.get tcp_key) next.same
          ∙ get-insert_ne (keys.enr_key (keys.public key)) tcp_key _ _
              (λ i. (key_law.enr_key-IsFree (keys.public key)).ne_tcp (sym i))
          ∙ get-insert_self tcp_key (rlp.encode_uint tcp) _ in
        rw (empties, ran) (assert_tcp4_passes keys e' tcp owned.valid.verified range stored)

    pub test_low_integer_set_socket_passes :
        (rng rng' : ℕ → Entropy) → test_low_integer_set_socket keys key rng rng' ≡ ret tt
    unfolding test_low_integer_set_socket
    test_low_integer_set_socket_passes rng rng' =
        low_int_ports_pass _ (λ tcp. set_socket_round_passes (rng tcp) (rng' tcp) tcp)
