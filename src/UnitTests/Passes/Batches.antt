-- ===== src/UnitTests/Passes/Batches.antt =====
-- The test of `remove_insert` on small ports, over any crates.
use enr.Prelude.{
  ℕ, ◌^◌, ◌≤◌, ◌<◌, ◌≡◌, refl, sym, ap, ◌∙◌, List, [], ◌∷◌, Bool-cases, inl, inr, Option, some, ok,
  err, ret, arith, length, ltb,
}
use enr.Bytes.{Bytes, text, compare_bytes, id_key, tcp_key}
use enr.BtreeMap
use enr.BtreeMap.Laws.{get-insert_self, get-insert_ne, get-remove_ne}
use enr.Crates.Rlp.{Rlp, RlpLaws}
use enr.Crates.Hashing.{Keccak256, KeccakLaws}
use enr.Error.{EnrError, invalid_rlp_data}
use enr.Keys.Traits.{Content, Entropy, EnrKey}
use enr.Keys.Laws.{KeyLaws, IsUnambiguous, IsCompact}
use enr.Enr.Defs.{Enr}
use enr.Enr.Reserved.{check_port}
use enr.Enr.Decode.{is_keyof_u16}
use enr.Enr.RoundTrip.{pair_items}
use enr.Enr.RemoveInsert.{remove_insert}
use enr.Enr.Removal.{taken, replaced, removed}
use enr.Enr.Removal.Update.{prepared, remove_insert-IsOwned}
use enr.Enr.Outcome.{place, placed, bad_port, remove_insert_outcome}
use enr.Enr.Outcomes.Batch.{remove_insert-outcome}
use enr.Enr.Revert.{with_content}
use enr.Enr.Room.{weight, weight-insert, id-get, length-encode_uint_le}
use enr.Enr.Room.Updates.{remove_insert_fits}
use enr.Builder.{builder, default}
use enr.UnitTests.Updates.{to_be_bytes}
use enr.UnitTests.Ports.{assert_tcp4, remove_insert_round, test_low_integer_remove_insert}
use enr.UnitTests.Passes.{IsStarted}
use enr.UnitTests.Passes.Ports.{
  low_int_ports_pass, two_bytes, low_port_refused, assert_tcp4_passes, blank,
}
use enr.UnitTests.Passes.Insertions.{check_inserted_refused, check_inserted_stored}

module _ ⦃rlp : Rlp⦄ where
  -- A removal adds nothing.
  pub weight-remove :
      (key : Bytes) (content : Content) → weight (BtreeMap.remove key content) ≤ weight content
  unfolding BtreeMap.remove pair_items
  weight-remove key [] = omega arith
  weight-remove key ((j, w) ∷ content) = ground (arith, weight-remove key content)

  -- One port in the batch.
  place_port :
      (value : Bytes) (content : Content)
      → check_port (rlp.encode_bytes value) ≡ ok tt
      → place ((tcp_key, value) ∷ []) content
        ≡ placed (BtreeMap.insert tcp_key (rlp.encode_bytes value) content)
  unfolding place is_keyof_u16 compare_bytes
  place_port value content h = rw h refl

  place_bad_port :
      (value : Bytes) (content : Content) (x : EnrError)
      → check_port (rlp.encode_bytes value) ≡ err x
      → place ((tcp_key, value) ∷ []) content ≡ bad_port x content
  unfolding place is_keyof_u16 compare_bytes
  place_bad_port value content x h = rw h refl

  module _ (law : RlpLaws rlp) ⦃keccak : Keccak256⦄ {K P : Type 0} (keys : EnrKey K P)
      (compact : IsCompact keys) (keccak_law : KeccakLaws keccak) (key_law : KeyLaws keys)
      (own : IsUnambiguous keys) (key : K)
      (signs : (rng : Entropy) (msg : Bytes)
        → (sig : Bytes) × (keys.sign_v4 rng key msg ≡ ok sig)) where
    refused_batch :
        (names : List Bytes) (tcp : ℕ) (rng : Entropy) (e : Enr)
        → tcp < 256
        → (x : Bytes) × (e' : Enr) × (remove_insert keys names
              ((tcp_key, to_be_bytes tcp) ∷ [])
              key
              rng
              e
            ≡ ret (err (invalid_rlp_data x), e'))
    unfolding remove_insert_outcome
    refused_batch names tcp rng e low =
        let (x, refused) = low_port_refused law tcp low in
        let bad =
          place_bad_port (to_be_bytes tcp) (prepared keys names key e.content) (invalid_rlp_data x)
            refused in
        (
          x,
          with_content (prepared keys names key e.content) e,
          remove_insert-outcome keys names _ key rng e ∙ rw (bad, remove_insert_outcome) refl,
        )

    port_checked :
        (tcp : ℕ)
        → 256 ≤ tcp
        → tcp < 2 ^ 16
        → check_port (rlp.encode_bytes (to_be_bytes tcp)) ≡ ok tt
    unfolding check_port
    port_checked tcp high range =
        let same = two_bytes law tcp high range in
        rw (same, law.decode_u16-encode_uint tcp range) refl

    stored_batch :
        (tcp : ℕ) (rng : Entropy) (e : Enr)
        → 256 ≤ tcp
        → tcp < 2 ^ 16
        → IsStarted law keys compact keccak_law key_law own key signs builder e
        → (previous : List (Option Bytes) × List (Option Bytes)) × (e' : Enr) × (remove_insert keys
              (text "none" ∷ [])
              ((tcp_key, to_be_bytes tcp) ∷ [])
              key
              rng
              e
            ≡ ret (ok previous, e'))
          × (assert_tcp4 keys e' tcp ≡ ret tt)
    unfolding builder default pair_items
    stored_batch tcp rng e high range s =
        let names = text "none" ∷ [] in
        let kvs = (tcp_key, to_be_bytes tcp) ∷ [] in
        let p = keys.public key in
        let free = key_law.enr_key-IsFree p in
        let start = prepared keys names key e.content in
        let same = two_bytes law tcp high range in
        let content = BtreeMap.insert tcp_key (rlp.encode_bytes (to_be_bytes tcp)) start in
        let small = compact.length-encode p in
        let name = compact.length-enr_key p in
        let light : weight content ≤ 219 = omega (
          arith,
          s.light,
          small,
          name,
          ap length same,
          length-encode_uint_le law tcp (omega (arith, range)),
          weight-remove (text "none") e.content,
          weight-insert law (keys.enr_key p) (rlp.encode_bytes (keys.encode p))
              (removed names e.content) (omega (arith, name)),
          law.length-encode_bytes_le (keys.encode p) (omega (arith, small)),
          weight-insert law tcp_key (rlp.encode_bytes (to_be_bytes tcp)) start (omega arith),
        ) in
        let scheme_kept : BtreeMap.get id_key content ≡ BtreeMap.get id_key e.content =
          get-insert_ne tcp_key id_key _ start (λ i. ground (arith, i))
          ∙ get-insert_ne (keys.enr_key p) id_key _ _ (λ i. free.ne_id (sym i))
          ∙ get-remove_ne (text "none") id_key e.content (λ i. ground (arith, i)) in
        let (e', ran, next) =
          remove_insert_fits law keys compact keccak_law key_law names kvs key rng e content
            (place_port (to_be_bytes tcp) start (port_checked tcp high range))
            (id-get (with_content content e) e scheme_kept ∙ s.scheme) (omega (arith, s.counted))
            light (signs rng) in
        let owned =
          (remove_insert-IsOwned keys law key_law own names kvs key rng e e' s.owned.valid.sound
            ((λ i. free.ne_tcp (sym i)), tt) ran).0 in
        let stored : BtreeMap.get tcp_key e'.content ≡ some (rlp.encode_uint tcp) =
          ap (BtreeMap.get tcp_key) next.same ∙ get-insert_self tcp_key _ start ∙ ap some same in
        (
          (taken names e.content, replaced kvs start),
          e',
          ran,
          assert_tcp4_passes law keys e' tcp owned.valid.verified range stored,
        )

    remove_insert_round_passes :
        (rng rng' : Entropy) (tcp : ℕ)
        → tcp < 2 ^ 16
        → remove_insert_round keys key rng rng' tcp ≡ ret tt
    unfolding remove_insert_round
    remove_insert_round_passes rng rng' tcp range =
        let (e, empties, s) = blank law keys compact keccak_law key_law own key signs rng in
        elim (Bool-cases (ltb tcp 256)) [
          | inl low ↦
              let (x, e', refused) =
                refused_batch (text "none" ∷ []) tcp rng' e (ground (arith, low)) in
              rw (empties, refused)
                (check_inserted_refused law keys (List (Option Bytes) × List (Option Bytes)) tcp x
                  e' (ground (arith, low)))
          | inr high ↦
              let (previous, e', ran, passes) =
                stored_batch tcp rng' e (ground (arith, high)) range s in
              rw (empties, ran)
                (check_inserted_stored law keys tcp previous e' (ground (arith, high)) passes)
        ]

    pub test_low_integer_remove_insert_passes :
        (rng rng' : ℕ → Entropy) → test_low_integer_remove_insert keys key rng rng' ≡ ret tt
    unfolding test_low_integer_remove_insert
    test_low_integer_remove_insert_passes rng rng' =
        low_int_ports_pass _ (λ tcp. remove_insert_round_passes (rng tcp) (rng' tcp) tcp)
