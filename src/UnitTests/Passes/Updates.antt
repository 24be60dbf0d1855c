-- ===== src/UnitTests/Passes/Updates.antt =====
-- The tests that insert a value and set an address, over any crates.
use enr.Prelude.{
  ◌+◌, ◌≤◌, ◌≡◌, ◌≢◌, refl, sym, ap, ◌∙◌, [], ◌∷◌, Option, some, ok, ret, arith, length,
}
use enr.Bytes.{Bytes, text, compare_bytes, id_key, ip_key, tcp_key, v4}
use enr.Bytes.Laws.{compare_refl}
use enr.BtreeMap
use enr.BtreeMap.Laws.{get-insert_self, get-insert_ne}
use enr.Crates.Rlp.{Rlp, RlpLaws}
use enr.Crates.Hashing.{Keccak256, KeccakLaws}
use enr.Keys.Traits.{Entropy, EnrKey}
use enr.Keys.Laws.{KeyLaws, IsUnambiguous, IsCompact}
use enr.Enr.Defs.{Enr, v4_addr}
use enr.Enr.Getters.{id, get_raw_rlp}
use enr.Enr.Reserved.{check_spec_reserved_keys, check_ip}
use enr.Enr.Decode.{is_keyof_u16}
use enr.Enr.Setters.{insert, insert_raw_rlp, set_ip, previous_ip}
use enr.Enr.Action.{>>=-of_ok, pure}
use enr.Enr.Revert.{stored_content}
use enr.Enr.Room.{weight, id-get, insert_raw_rlp_fits}
use enr.Enr.Update.{insert_raw_rlp-IsOwned}
use enr.Enr.Valid.{IsOwned, IsSoundEntry, encode_bytes-IsSoundEntry}
use enr.Builder
use enr.Builder.{builder, default, add_value, add_value_rlp}
use enr.UnitTests.Updates.{test_add_key, test_set_ip}
use enr.UnitTests.Passes.{IsStarted, started, kept, builder-IsLight, tcp4-IsLight, ip4-IsLight}
use enr.UnitTests.Passes.Codecs.{ip4_stored, tcp4_stored}

module _ ⦃rlp : Rlp⦄ (law : RlpLaws rlp) ⦃keccak : Keccak256⦄ {K P S V : Type 0} (keys : EnrKey K P)
    (k256 : EnrKey S V) (compact : IsCompact keys) (keccak_law : KeccakLaws keccak)
    (key_law : KeyLaws keys) (own : IsUnambiguous keys) (key : K)
    (signs : (rng : Entropy) (msg : Bytes)
      → (sig : Bytes) × (keys.sign_v4 rng key msg ≡ ok sig)) where
  -- A record after an insertion.
  pub record IsInserted (name value : Bytes) (rng : Entropy) (e e' : Enr) : Type 0 where
    pub previous : Option Bytes
    pub ran : insert_raw_rlp keys k256 name value key rng e ≡ ret (ok previous, e')
    pub owned : IsOwned keys key e'
    pub same : e'.content ≡ stored_content keys name value key e.content
    pub scheme : id e' ≡ ret (some v4)

  pub insertion_done :
      (name value : Bytes) (rng : Entropy) (b : Builder.Builder) (e : Enr)
      → IsStarted law keys compact keccak_law key_law own key signs b e
      → check_spec_reserved_keys k256 name value ≡ ret (ok tt)
      → name ≢ id_key
      → IsSoundEntry name value
      → weight b.content + length name + length value ≤ 110
      → (e' : Enr) × IsInserted name value rng e e'
  insertion_done name value rng b e s accepted ne entry light =
      let p = keys.public key in
      let (e', ran, seq, content, short) =
        insert_raw_rlp_fits law keys compact k256 keccak_law key_law name value key rng e accepted
          ne s.scheme (omega (arith, s.counted)) s.short (omega (arith, light, s.light))
          (signs rng) in
      let scheme_kept : BtreeMap.get id_key e'.content ≡ BtreeMap.get id_key e.content =
        ap (BtreeMap.get id_key) content
        ∙ get-insert_ne (keys.enr_key p) id_key _ _ (λ i. (key_law.enr_key-IsFree p).ne_id (sym i))
        ∙ get-insert_ne name id_key value e.content (λ i. ne (sym i)) in
      (
        e',
        record {
          previous = get_raw_rlp e name;
          ran = ran;
          owned =
              (insert_raw_rlp-IsOwned keys k256 law key_law own name value key rng e e'
                s.owned.valid.sound entry ran).0;
          same = content;
          scheme = id-get e' e scheme_kept ∙ s.scheme;
        },
      )

  -- The value is stored, and other entries are kept.
  pub stored_under :
      (name value : Bytes) (rng : Entropy) (e e' : Enr)
      → name ≢ keys.enr_key (keys.public key)
      → IsInserted name value rng e e'
      → BtreeMap.get name e'.content ≡ some value
  stored_under name value rng e e' ne i =
      ap (BtreeMap.get name) i.same
      ∙ get-insert_ne (keys.enr_key (keys.public key)) name _ _ ne
      ∙ get-insert_self name value e.content

  pub stored_beside :
      (other name value : Bytes) (rng : Entropy) (e e' : Enr)
      → other ≢ keys.enr_key (keys.public key)
      → other ≢ name
      → IsInserted name value rng e e'
      → BtreeMap.get other e'.content ≡ BtreeMap.get other e.content
  stored_beside other name value rng e e' ne apart i =
      ap (BtreeMap.get other) i.same
      ∙ get-insert_ne (keys.enr_key (keys.public key)) other _ _ ne
      ∙ get-insert_ne name other value e.content apart

  pub test_add_key_passes : (rng rng' : Entropy) → test_add_key keys k256 key rng rng' ≡ ret tt
  unfolding test_add_key insert
  test_add_key_passes rng rng' =
      let b = Builder.tcp4 30303 (Builder.ip4 (10 ∷ 0 ∷ 0 ∷ 1 ∷ []) builder) in
      let light =
        tcp4-IsLight law 30303 12 _ (omega arith)
          (ip4-IsLight law (10 ∷ 0 ∷ 0 ∷ 1 ∷ []) 0 builder refl builder-IsLight) in
      let (e, builds, s) =
        started law keys compact keccak_law key_law own key signs 30 rng b (omega arith) light in
      let name = text "random" in
      let (e', i) =
        insertion_done name (rlp.encode_bytes []) rng' b e s
          (unfold check_spec_reserved_keys is_keyof_u16 compare_bytes in refl)
          (λ i. ground (arith, i))
          (encode_bytes-IsSoundEntry law name [] (unfold is_keyof_u16 compare_bytes in refl))
          (omega (arith, light.light, law.length-encode_bytes_le [] (omega arith))) in
      rw (builds, i.ran, i.owned.valid.verified) refl

  ip_accepted :
      (octets : Bytes)
      → length octets ≡ 4
      → check_spec_reserved_keys k256 ip_key (rlp.encode_bytes octets) ≡ ret (ok tt)
  unfolding check_spec_reserved_keys is_keyof_u16 compare_bytes check_ip
  ip_accepted octets sized = ground (arith, sized, law.decode_vec-encode_bytes octets)

  set_ip_ran :
      (octets : Bytes) (rng : Entropy) (e e' : Enr) {previous : Option Bytes}
      → insert_raw_rlp keys k256 ip_key (rlp.encode_bytes octets) key rng e ≡ ret (ok previous, e')
      → set_ip keys k256 (v4_addr octets) key rng e ≡ ret (ok (previous_ip v4_addr 4 previous), e')
  unfolding set_ip insert
  set_ip_ran octets rng e e' h =
      >>=-of_ok (insert_raw_rlp keys k256 ip_key (rlp.encode_bytes octets) key rng)
        (λ prev_value. pure (previous_ip v4_addr 4 prev_value)) e h

  pub test_set_ip_passes : (rng rng' : Entropy) → test_set_ip keys k256 key rng rng' ≡ ret tt
  unfolding test_set_ip Builder.tcp4 builder default add_value add_value_rlp BtreeMap.insert
      BtreeMap.get compare_bytes
  test_set_ip_passes rng rng' =
      let b = Builder.tcp4 30303 builder in
      let light = tcp4-IsLight law 30303 0 _ (omega arith) builder-IsLight in
      let (e, builds, s) =
        started law keys compact keccak_law key_law own key signs 18 rng b (omega arith) light in
      let ip = 10 ∷ 0 ∷ 0 ∷ 1 ∷ [] in
      let (e', i) =
        insertion_done ip_key (rlp.encode_bytes ip) rng' b e s (ip_accepted ip refl)
          (λ i. ground (arith, i))
          (encode_bytes-IsSoundEntry law ip_key ip (unfold is_keyof_u16 compare_bytes in refl))
          (omega (arith, light.light, law.length-encode_bytes_le ip (omega arith))) in
      let free = key_law.enr_key-IsFree (keys.public key) in
      let address =
        ip4_stored law ip e' refl (stored_under ip_key _ rng' e e' (λ i. free.ne_ip (sym i)) i) in
      let port = tcp4_stored law 30303 e' (omega arith) (
        stored_beside tcp_key ip_key _ rng' e e' (λ i. free.ne_tcp (sym i)) (λ i. ground (arith, i))
          i
        ∙ kept law keys compact keccak_law key_law own key signs tcp_key b e
            (λ i. ground (arith, i)) (λ i. free.ne_tcp (sym i)) s) in
      rw
        (
          builds,
          set_ip_ran ip rng' e e' i.ran,
          i.scheme,
          address,
          port,
          i.owned.valid.verified,
          i.owned.owner,
        )
        (ground (arith, compare_refl (keys.encode (keys.public key))))
