-- ===== src/UnitTests/Ports.antt =====
-- The tests of src/lib.rs on ports that fit into one byte.
use enr.Prelude.{ℕ, [], ◌∷◌, List, Bool, some, Result, Panics, ltb, if◌then◌else◌}
use enr.Prelude.{◌==◌ as nat_eq}
use enr.Prelude.Panicking.{◌>>=◌}
use enr.Bytes.{text, ◌==◌, tcp_key}
use enr.Crates.Rlp.{Rlp}
use enr.Crates.Hashing.{Keccak256}
use enr.Error.{EnrError, display}
use enr.Keys.Traits.{Entropy, EnrKey}
use enr.Enr.Defs.{Enr, v4_socket}
use enr.Enr.Getters.{get_raw_rlp, tcp4}
use enr.Enr.Encode.{verify}
use enr.Enr.Setters.{insert, set_tcp4}
use enr.Enr.Socket.{set_socket}
use enr.Enr.RemoveInsert.{remove_insert}
use enr.Builder
use enr.Builder.{builder, empty}
use enr.UnitTests.Assert.{assert, option_eq, unwrap, unwrap_err, unwrap_some, unwrap_on, for_each}
use enr.UnitTests.Codecs.{built}
use enr.UnitTests.Updates.{to_be_bytes}

abbrev pub low_int_ports : List ℕ
low_int_ports = 0 ∷ 30 ∷ 255 ∷ 30303 ∷ []

module _ ⦃rlp : Rlp⦄ {K P : Type 0} (keys : EnrKey K P) where
  unfoldable pub assert_tcp4 : Enr → ℕ → Panics (Unit {0})
  assert_tcp4 enr tcp = do
    valid ← verify keys enr
    _ ← assert valid
    raw ← unwrap_some (get_raw_rlp enr tcp_key)
    _ ← assert (raw == rlp.encode_uint tcp)
    assert (option_eq nat_eq (tcp4 enr) (some tcp))

module _ ⦃rlp : Rlp⦄ ⦃keccak : Keccak256⦄ {K P : Type 0} (keys : EnrKey K P) where
  -- `Enr::empty(&key).unwrap()`
  abbrev pub emptied : K → Entropy → Panics Enr
  emptied key rng = do started ← empty keys key rng; unwrap started

  -- The rounds of the five loops, over the randomness of each.
  unfoldable pub build_round : K → Entropy → ℕ → Panics (Unit {0})
  unfolding assert_tcp4
  build_round key rng tcp = do
    enr ← built keys key rng (Builder.tcp4 tcp builder)
    assert_tcp4 keys enr tcp

  unfoldable pub test_low_integer_build : K → (ℕ → Entropy) → Panics (Unit {0})
  test_low_integer_build key rng = for_each low_int_ports (λ tcp. build_round key (rng tcp) tcp)

  unfoldable pub set_socket_round : K → Entropy → Entropy → ℕ → Panics (Unit {0})
  unfolding assert_tcp4
  set_socket_round key rng rng' tcp = do
    let ipv4 = 127 ∷ 0 ∷ 0 ∷ 1 ∷ []
    enr ← emptied key rng
    (_, enr) ←
        unwrap_on
          (set_socket keys (v4_socket (record { ip = ipv4; port = tcp })) key Bool.true rng') enr
    assert_tcp4 keys enr tcp

  unfoldable pub test_low_integer_set_socket : K → (ℕ → Entropy) → (ℕ → Entropy) → Panics (Unit {0})
  test_low_integer_set_socket key rng rng' =
      for_each low_int_ports (λ tcp. set_socket_round key (rng tcp) (rng' tcp) tcp)

  -- What is asserted of an insertion of the two bytes of a port: `u8::try_from(tcp).is_ok()` is the
  -- test for a byte.
  unfoldable pub check_inserted : {A : Type 0} → ℕ → Result EnrError A × Enr → Panics (Unit {0})
  unfolding assert_tcp4
  check_inserted tcp (res, enr) =
      if ltb tcp 256
      then (do error ← unwrap_err res; assert (display error == text "invalid rlp data"))
      else (do _ ← unwrap res; assert_tcp4 keys enr tcp)

  unfoldable pub remove_insert_round : K → Entropy → Entropy → ℕ → Panics (Unit {0})
  unfolding check_inserted
  remove_insert_round key rng rng' tcp = do
    enr ← emptied key rng
    ended ← remove_insert keys (text "none" ∷ []) ((tcp_key, to_be_bytes tcp) ∷ []) key rng' enr
    check_inserted tcp ended

  unfoldable pub test_low_integer_remove_insert :
      K → (ℕ → Entropy) → (ℕ → Entropy) → Panics (Unit {0})
  test_low_integer_remove_insert key rng rng' =
      for_each low_int_ports (λ tcp. remove_insert_round key (rng tcp) (rng' tcp) tcp)

  module _ {S V : Type 0} (k256 : EnrKey S V) where
    unfoldable pub set_round : K → Entropy → Entropy → ℕ → Panics (Unit {0})
    unfolding assert_tcp4
    set_round key rng rng' tcp = do
      enr ← emptied key rng
      (_, enr) ← unwrap_on (set_tcp4 keys k256 tcp key rng') enr
      assert_tcp4 keys enr tcp

    unfoldable pub test_low_integer_set : K → (ℕ → Entropy) → (ℕ → Entropy) → Panics (Unit {0})
    test_low_integer_set key rng rng' =
        for_each low_int_ports (λ tcp. set_round key (rng tcp) (rng' tcp) tcp)

    unfoldable pub insert_round : K → Entropy → Entropy → ℕ → Panics (Unit {0})
    unfolding check_inserted
    insert_round key rng rng' tcp = do
      enr ← emptied key rng
      ended ← insert keys k256 rlp.encode_bytes tcp_key (to_be_bytes tcp) key rng' enr
      check_inserted tcp ended

    unfoldable pub test_low_integer_insert : K → (ℕ → Entropy) → (ℕ → Entropy) → Panics (Unit {0})
    test_low_integer_insert key rng rng' =
        for_each low_int_ports (λ tcp. insert_round key (rng tcp) (rng' tcp) tcp)
