-- ===== src/Enr/Refines/Signed.antt =====
-- What is signed determines what is read, and the other way round.
use enr.Prelude.{ℕ, ◌^◌, ◌<◌, ◌≡◌, ◌↔◌, refl, sym, ap, ◌∙◌, [], ◌∷◌, true, All, arith}
use enr.Bytes.{Bytes}
use enr.Bytes.Laws.{eq_of_compare, compare_refl}
use enr.BtreeMap
use enr.BtreeMap.Extensional.{IsSorted-extensional}
use enr.Crates.Rlp.{Rlp, RlpLaws, IsItem}
use enr.Keys.Traits.{Content}
use enr.Enr.Defs.{Enr}
use enr.Enr.Getters.{get_raw_rlp}
use enr.Enr.Encode.{rlp_content, compare_content}
use enr.Enr.Commit.{rlp_content-eq}
use enr.Enr.RoundTrip.{pair_items, signed_items, rlp_content-list_of, pair_items-IsItem}
use enr.Enr.Valid.{IsSound}
use enr.Enr.Abstract.{View, view}
use enr.Enr.Safety.{IsSafe}
use enr.Enr.Refines.{view-eq}

module _ ⦃rlp : Rlp⦄ where
  module _ (law : RlpLaws rlp) where
    signed_items-IsItem : (e : Enr) → IsSound e.content → All IsItem (signed_items e)
    signed_items-IsItem e s = (
      rw (law.encode_uint_bytes e.seq) (law.encode_bytes-IsItem (law.uint_digits e.seq)),
      pair_items-IsItem law e.content s.entries,
    )

    encode_bytes-injective : (b c : Bytes) → rlp.encode_bytes b ≡ rlp.encode_bytes c → b ≡ c
    encode_bytes-injective b c h = cc (law.data_of-encode_bytes b, law.data_of-encode_bytes c, h)

    encode_uint-injective :
        (m n : ℕ) → m < 2 ^ 64 → n < 2 ^ 64 → rlp.encode_uint m ≡ rlp.encode_uint n → m ≡ n
    encode_uint-injective m n r s h =
        cc (law.decode_u64-encode_uint m r, law.decode_u64-encode_uint n s, h)

    pair_items-injective : (c d : Content) → pair_items c ≡ pair_items d → c ≡ d
    unfolding pair_items
    pair_items-injective [] [] h = refl
    pair_items-injective [] ((j, w) ∷ d) h = absurd (cc h)
    pair_items-injective ((k, v) ∷ c) [] h = absurd (cc h)
    pair_items-injective ((k, v) ∷ c) ((j, w) ∷ d) h =
        let is_key = encode_bytes-injective k j (cc h) in
        let is_value : v ≡ w = cc h in
        let rest = pair_items-injective c d (cc h) in rw (is_key, is_value, rest) refl

    rlp_content-injective :
        (e f : Enr)
        → IsSafe e
        → IsSafe f
        → rlp_content e ≡ rlp_content f
        → (e.seq ≡ f.seq) × (e.content ≡ f.content)
    rlp_content-injective e f s t h =
        let lists = sym (rlp_content-list_of e) ∙ h ∙ rlp_content-list_of f in
        let items : signed_items e ≡ signed_items f =
          sym (law.iter-list_of (signed_items e) (signed_items-IsItem e s.sound))
          ∙ ap rlp.iter lists
          ∙ law.iter-list_of (signed_items f) (signed_items-IsItem f t.sound) in
        (
          encode_uint-injective e.seq f.seq s.seq_range t.seq_range (cc items),
          pair_items-injective e.content f.content (cc items),
        )

    view-content : (e f : Enr) → IsSafe e → IsSafe f → view e ≡ view f → e.content ≡ f.content
    unfolding view get_raw_rlp
    view-content e f s t h =
        IsSorted-extensional e.content f.content s.sound.sorted t.sound.sorted
          (λ q. ap (λ (w : View). w.read q) h)

    -- Two records with sound contents and sequence numbers of 64 bits have the same content in the
    -- sense of `compare_content`, that is, the same bytes are signed, exactly if they have the same
    -- sequence number and read the same under every key.
    pub compare_content_iff :
        (e f : Enr) → IsSafe e → IsSafe f → (compare_content e f ≡ true) ↔ (view e ≡ view f)
    unfolding compare_content
    compare_content_iff e f s t = (same_view, same_bytes)
      where
        same_view : compare_content e f ≡ true → view e ≡ view f
        same_view h =
            let bytes : rlp_content e ≡ rlp_content f =
              ground (arith, eq_of_compare (rlp_content e) (rlp_content f)) in
            let (is_seq, is_content) = rlp_content-injective e f s t bytes in
            unfold view get_raw_rlp in view-eq _ _ is_seq (λ q. ap (BtreeMap.get q) is_content)

        same_bytes : view e ≡ view f → compare_content e f ≡ true
        same_bytes h =
            let is_seq : e.seq ≡ f.seq = unfold view in ap (λ (w : View). w.seq) h in
            let is_content = view-content e f s t h in
            let bytes : rlp_content e ≡ rlp_content f = rlp_content-eq e f is_seq is_content in
            ground (arith, bytes, compare_refl (rlp_content f))
