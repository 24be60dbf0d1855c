-- ===== src/UnitTests/Passes/Insertions.antt =====
-- The tests that insert small ports, over any crates.
use enr.Prelude.{
  ℕ, ◌^◌, ◌≤◌, ◌<◌, ◌≡◌, refl, sym, Bool-cases, inl, inr, Option, none, some, ok, err, ret, arith,
  ltb,
}
use enr.Bytes.{Bytes, text, compare_bytes, tcp_key}
use enr.Bytes.Laws.{compare_refl}
use enr.Crates.Rlp.{Rlp, RlpLaws}
use enr.Crates.Hashing.{Keccak256, KeccakLaws}
use enr.Error.{invalid_rlp_data}
use enr.Keys.Traits.{Entropy, EnrKey}
use enr.Keys.Laws.{KeyLaws, IsUnambiguous, IsCompact}
use enr.Enr.Defs.{Enr}
use enr.Enr.Action.{>>=-of_ok, pure}
use enr.Prelude.Fallible.{to_option}
use enr.Enr.Reserved.{check_spec_reserved_keys, check_port}
use enr.Enr.Decode.{is_keyof_u16}
use enr.Enr.RoundTrip.{pair_items}
use enr.Enr.Setters.{insert, insert_raw_rlp, set_tcp4}
use enr.Enr.Room.{length-encode_uint_le}
use enr.Enr.Valid.{encode_uint-IsSoundEntry}
use enr.Builder.{builder, default}
use enr.UnitTests.Updates.{to_be_bytes}
use enr.UnitTests.Ports.{
  assert_tcp4, check_inserted, set_round, test_low_integer_set, insert_round,
  test_low_integer_insert,
}
use enr.UnitTests.Passes.{IsStarted}
use enr.UnitTests.Passes.Updates.{IsInserted, insertion_done, stored_under}
use enr.UnitTests.Passes.Ports.{
  low_int_ports_pass, two_bytes, low_port_refused, assert_tcp4_passes, blank,
}

module _ ⦃rlp : Rlp⦄ (law : RlpLaws rlp) ⦃keccak : Keccak256⦄ {K P : Type 0}
    (keys : EnrKey K P) where
  abbrev old_port : Option Bytes → Option ℕ
  old_port raw = elim raw [ none ↦ none | some bytes ↦ to_option (rlp.decode_u16 bytes) ]

  -- A refused port that is named so, and a stored port, are what is asserted.
  pub check_inserted_refused :
      (A : Type 0) (tcp : ℕ) (x : Bytes) (e : Enr)
      → tcp < 256
      → check_inserted keys {A = A} tcp (err (invalid_rlp_data x), e) ≡ ret tt
  unfolding check_inserted
  check_inserted_refused A tcp x e low = ground (arith, low, compare_refl (text "invalid rlp data"))

  pub check_inserted_stored :
      {A : Type 0} (tcp : ℕ) (a : A) (e : Enr)
      → 256 ≤ tcp
      → assert_tcp4 keys e tcp ≡ ret tt
      → check_inserted keys tcp (ok a, e) ≡ ret tt
  unfolding check_inserted
  check_inserted_stored tcp a e high passes = ground (arith, high, passes)

  module _ {S V : Type 0} (k256 : EnrKey S V) (compact : IsCompact keys)
      (keccak_law : KeccakLaws keccak) (key_law : KeyLaws keys) (own : IsUnambiguous keys) (key : K)
      (signs : (rng : Entropy) (msg : Bytes)
        → (sig : Bytes) × (keys.sign_v4 rng key msg ≡ ok sig)) where
    tcp_accepted :
        (tcp : ℕ)
        → tcp < 2 ^ 16
        → check_spec_reserved_keys k256 tcp_key (rlp.encode_uint tcp) ≡ ret (ok tt)
    unfolding check_spec_reserved_keys is_keyof_u16 compare_bytes check_port
    tcp_accepted tcp range = ground (arith, law.decode_u16-encode_uint tcp range)

    set_tcp4_ran :
        (tcp : ℕ) (rng : Entropy) (e e' : Enr) {previous : Option Bytes}
        → insert_raw_rlp keys k256 tcp_key (rlp.encode_uint tcp) key rng e ≡ ret (ok previous, e')
        → (o : Option ℕ) × (set_tcp4 keys k256 tcp key rng e ≡ ret (ok o, e'))
    unfolding set_tcp4 insert
    set_tcp4_ran tcp rng e e' {previous} h = (
      old_port previous,
      >>=-of_ok (insert_raw_rlp keys k256 tcp_key (rlp.encode_uint tcp) key rng)
          (λ prev_value. pure (old_port prev_value)) e h,
    )

    -- A port is stored in the empty record.
    store_tcp :
        (tcp : ℕ) (rng : Entropy) (e : Enr)
        → tcp < 2 ^ 16
        → IsStarted law keys compact keccak_law key_law own key signs builder e
        → (e' : Enr) × IsInserted law keys k256 compact keccak_law key_law own key signs tcp_key
            (rlp.encode_uint tcp)
            rng
            e
            e'
          × (assert_tcp4 keys e' tcp ≡ ret tt)
    unfolding builder default pair_items
    store_tcp tcp rng e range s =
        let (e', i) =
          insertion_done law keys k256 compact keccak_law key_law own key signs tcp_key
            (rlp.encode_uint tcp) rng builder e s (tcp_accepted tcp range) (λ i. ground (arith, i))
            (encode_uint-IsSoundEntry law tcp_key tcp range)
            (omega (arith, length-encode_uint_le law tcp (omega (arith, range)))) in
        let stored =
          stored_under law keys k256 compact keccak_law key_law own key signs tcp_key _ rng e e'
            (λ i. (key_law.enr_key-IsFree (keys.public key)).ne_tcp (sym i)) i in
        (e', i, assert_tcp4_passes law keys e' tcp i.owned.valid.verified range stored)

    set_round_passes :
        (rng rng' : Entropy) (tcp : ℕ)
        → tcp < 2 ^ 16
        → set_round keys k256 key rng rng' tcp ≡ ret tt
    unfolding set_round
    set_round_passes rng rng' tcp range =
        let (e, empties, s) = blank law keys compact keccak_law key_law own key signs rng in
        let (e', i, passes) = store_tcp tcp rng' e range s in
        let (_, ran) = set_tcp4_ran tcp rng' e e' i.ran in rw (empties, ran) passes

    pub test_low_integer_set_passes :
        (rng rng' : ℕ → Entropy) → test_low_integer_set keys k256 key rng rng' ≡ ret tt
    unfolding test_low_integer_set
    test_low_integer_set_passes rng rng' =
        low_int_ports_pass _ (λ tcp. set_round_passes (rng tcp) (rng' tcp) tcp)

    -- Two bytes of a low port are refused.
    insert_refused :
        (tcp : ℕ) (rng : Entropy) (e : Enr)
        → tcp < 256
        → (x : Bytes) × (insert keys k256 rlp.encode_bytes tcp_key (to_be_bytes tcp) key rng e
            ≡ ret (err (invalid_rlp_data x), e))
    unfolding insert insert_raw_rlp check_spec_reserved_keys is_keyof_u16 compare_bytes
    insert_refused tcp rng e low =
        let (x, refused) = low_port_refused law tcp low in (x, rw refused refl)

    insert_round_passes :
        (rng rng' : Entropy) (tcp : ℕ)
        → tcp < 2 ^ 16
        → insert_round keys k256 key rng rng' tcp ≡ ret tt
    unfolding insert_round insert
    insert_round_passes rng rng' tcp range =
        let (e, empties, s) = blank law keys compact keccak_law key_law own key signs rng in
        elim (Bool-cases (ltb tcp 256)) [
          | inl low ↦
              let (x, refused) = insert_refused tcp rng' e (ground (arith, low)) in
              rw (empties, refused)
                (check_inserted_refused (Option Bytes) tcp x e (ground (arith, low)))
          | inr high ↦
              let (e', i, passes) = store_tcp tcp rng' e range s in
              let same = two_bytes law tcp (ground (arith, high)) range in
              rw (empties, same, i.ran)
                (check_inserted_stored tcp i.previous e' (ground (arith, high)) passes)
        ]

    pub test_low_integer_insert_passes :
        (rng rng' : ℕ → Entropy) → test_low_integer_insert keys k256 key rng rng' ≡ ret tt
    unfolding test_low_integer_insert
    test_low_integer_insert_passes rng rng' =
        low_int_ports_pass _ (λ tcp. insert_round_passes (rng tcp) (rng' tcp) tcp)
