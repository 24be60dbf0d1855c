-- ===== src/UnitTests/Passes/Topics.antt =====
-- The test that removes a port and stores topics, over any crates.
use enr.Prelude.{◌≤◌, ◌≡◌, ◌≢◌, refl, sym, ap, ◌∙◌, [], ◌∷◌, none, some, ok, ret, arith, length}
use enr.Bytes.{Bytes, text, compare_bytes, id_key, tcp_key}
use enr.Bytes.Laws.{compare_refl}
use enr.BtreeMap
use enr.BtreeMap.Laws.{get-insert_self, get-insert_ne, get-remove_ne, get-remove_self}
use enr.Crates.Rlp.{Rlp, RlpLaws, list_of}
use enr.Crates.Hashing.{Keccak256, KeccakLaws}
use enr.Keys.Traits.{Content, Entropy, EnrKey}
use enr.Keys.Laws.{KeyLaws, IsUnambiguous, IsCompact}
use enr.Enr.Defs.{Enr}
use enr.Enr.Getters.{get, get_raw_rlp, get_decodable, tcp4}
use enr.Enr.Decode.{is_keyof_u16}
use enr.Enr.RemoveInsert.{remove_insert}
use enr.Enr.Removal.{removed}
use enr.Enr.Removal.Update.{prepared, remove_insert-IsOwned}
use enr.Enr.Outcome.{place, placed}
use enr.Enr.Revert.{with_content}
use enr.Enr.Room.{weight, weight-insert, id-get}
use enr.Enr.Room.Updates.{remove_insert_fits}
use enr.Enr.Valid.{IsOwned}
use enr.Builder
use enr.Builder.{builder, default, add_value, add_value_rlp}
use enr.UnitTests.Updates.{test_remove_insert}
use enr.UnitTests.Passes.{IsStarted, started, kept, builder-IsLight, tcp4-IsLight}
use enr.UnitTests.Passes.Codecs.{tcp4_stored}
use enr.UnitTests.Passes.Ports.{two_bytes}
use enr.UnitTests.Passes.Batches.{weight-remove}

module _ ⦃rlp : Rlp⦄ (law : RlpLaws rlp) ⦃keccak : Keccak256⦄ {K P : Type 0} (keys : EnrKey K P)
    (compact : IsCompact keys) (keccak_law : KeccakLaws keccak) (key_law : KeyLaws keys)
    (own : IsUnambiguous keys) (key : K)
    (signs : (rng : Entropy) (msg : Bytes)
      → (sig : Bytes) × (keys.sign_v4 rng key msg ≡ ok sig)) where
  abbrev topics : Bytes
  topics =
      list_of (rlp.encode_bytes (text "lighthouse") ∷ rlp.encode_bytes (text "eth_syncing") ∷ [])

  length-topics : length (rlp.encode_bytes topics) ≤ 33
  length-topics =
      let first = law.length-encode_bytes_le (text "lighthouse") (omega arith) in
      let second = law.length-encode_bytes_le (text "eth_syncing") (omega arith) in
      let whole =
        law.length-list_of_le
          (rlp.encode_bytes (text "lighthouse") ∷ rlp.encode_bytes (text "eth_syncing") ∷ [])
          (omega (arith, first, second)) in
      omega (
        arith,
        first,
        second,
        whole,
        law.length-encode_bytes_le topics (omega (arith, first, second, whole)),
      )

  place-topics :
      (content : Content)
      → place ((text "topics", topics) ∷ []) content
        ≡ placed (BtreeMap.insert (text "topics") (rlp.encode_bytes topics) content)
  unfolding place is_keyof_u16 compare_bytes
  place-topics content = refl

  -- What a record without the name, and with it, answers.
  get_unset : (e : Enr) (name : Bytes) → BtreeMap.get name e.content ≡ none → get e name ≡ ret none
  unfolding get get_raw_rlp
  get_unset e name h = ground (arith, h)

  get_set :
      (e : Enr) (name value : Bytes)
      → BtreeMap.get name e.content ≡ some (rlp.encode_bytes value)
      → get e name ≡ ret (some value)
  unfolding get get_raw_rlp
  get_set e name value h = ground (arith, h, law.data_of-encode_bytes value)

  tcp4_unset : (e : Enr) → BtreeMap.get tcp_key e.content ≡ none → tcp4 e ≡ none
  unfolding tcp4 get_decodable get_raw_rlp
  tcp4_unset e h = rw h refl

  -- The port gives way to the topics.
  record IsSwapped (rng : Entropy) (e e' : Enr) : Type 0 where
    ran :
        remove_insert keys (tcp_key ∷ []) ((text "topics", topics) ∷ []) key rng e
        ≡ ret (ok (BtreeMap.get tcp_key e.content ∷ [], none ∷ []), e')
    owned : IsOwned keys key e'
    port : BtreeMap.get tcp_key e'.content ≡ none
    stored : BtreeMap.get (text "topics") e'.content ≡ some (rlp.encode_bytes topics)

  swapped :
      (rng : Entropy) (b : Builder.Builder) (e : Enr)
      → weight b.content ≤ 18
      → IsStarted law keys compact keccak_law key_law own key signs b e
      → text "topics" ≢ keys.enr_key (keys.public key)
      → BtreeMap.get (text "topics") e.content ≡ none
      → (e' : Enr) × IsSwapped rng e e'
  swapped rng b e light s free_topics unset =
      let names = tcp_key ∷ [] in
      let kvs = (text "topics", topics) ∷ [] in
      let p = keys.public key in
      let free = key_law.enr_key-IsFree p in
      let start = prepared keys names key e.content in
      let small = compact.length-encode p in
      let name = compact.length-enr_key p in
      let content = BtreeMap.insert (text "topics") (rlp.encode_bytes topics) start in
      let room : weight content ≤ 219 = omega (
        arith,
        s.light,
        light,
        small,
        name,
        length-topics,
        weight-remove tcp_key e.content,
        weight-insert law (keys.enr_key p) (rlp.encode_bytes (keys.encode p))
            (removed names e.content) (omega (arith, name)),
        law.length-encode_bytes_le (keys.encode p) (omega (arith, small)),
        weight-insert law (text "topics") (rlp.encode_bytes topics) start (omega arith),
      ) in
      let scheme_kept : BtreeMap.get id_key content ≡ BtreeMap.get id_key e.content =
        get-insert_ne (text "topics") id_key _ start (λ i. ground (arith, i))
        ∙ get-insert_ne (keys.enr_key p) id_key _ _ (λ i. free.ne_id (sym i))
        ∙ get-remove_ne tcp_key id_key e.content (λ i. ground (arith, i)) in
      let (e', ran, next) =
        remove_insert_fits law keys compact keccak_law key_law names kvs key rng e content
          (place-topics start) (id-get (with_content content e) e scheme_kept ∙ s.scheme)
          (omega (arith, s.counted)) room (signs rng) in
      let absent : BtreeMap.get (text "topics") start ≡ none =
        get-insert_ne (keys.enr_key p) (text "topics") _ _ free_topics
        ∙ get-remove_ne tcp_key (text "topics") e.content (λ i. ground (arith, i))
        ∙ unset in
      (
        e',
        record {
          ran = rw (← absent) ran;
          owned =
              (remove_insert-IsOwned keys law key_law own names kvs key rng e e' s.owned.valid.sound
                (free_topics, tt) ran).0;
          port =
              ap (BtreeMap.get tcp_key) next.same
              ∙ get-insert_ne (text "topics") tcp_key _ start (λ i. ground (arith, i))
              ∙ get-insert_ne (keys.enr_key p) tcp_key _ _ (λ i. free.ne_tcp (sym i))
              ∙ get-remove_self tcp_key e.content s.owned.valid.sound.sorted;
          stored =
              ap (BtreeMap.get (text "topics")) next.same ∙ get-insert_self (text "topics") _ start;
        },
      )

  pub test_remove_insert_passes :
      (rng rng' : Entropy)
      → text "topics" ≢ keys.enr_key (keys.public key)
      → test_remove_insert keys key rng rng' ≡ ret tt
  unfolding test_remove_insert Builder.tcp4 builder default add_value add_value_rlp BtreeMap.insert
      BtreeMap.get compare_bytes
  test_remove_insert_passes rng rng' free_topics =
      let b = Builder.tcp4 30303 builder in
      let light = tcp4-IsLight law 30303 0 _ (omega arith) builder-IsLight in
      let (e, builds, s) =
        started law keys compact keccak_law key_law own key signs 18 rng b (omega arith) light in
      let free = key_law.enr_key-IsFree (keys.public key) in
      let port : BtreeMap.get tcp_key e.content ≡ some (rlp.encode_uint 30303) =
        kept law keys compact keccak_law key_law own key signs tcp_key b e (λ i. ground (arith, i))
          (λ i. free.ne_tcp (sym i)) s in
      let unset : BtreeMap.get (text "topics") e.content ≡ none =
        kept law keys compact keccak_law key_law own key signs (text "topics") b e
          (λ i. ground (arith, i)) free_topics s in
      let (e', w) = swapped rng' b e (omega (arith, light.light)) s free_topics unset in
      rw
        (
          builds,
          tcp4_stored law 30303 e (omega arith) port,
          get_unset e (text "topics") unset,
          w.ran,
          port,
          two_bytes law 30303 (omega arith) (omega arith),
          tcp4_unset e' w.port,
          get_set e' (text "topics") topics w.stored,
          w.owned.owner,
        )
        (ground (
          arith,
          compare_refl (rlp.encode_uint 30303),
          compare_refl topics,
          compare_refl (keys.encode (keys.public key)),
        ))
