-- ===== src/Builder/Laws.antt =====
-- What `build` promises of the record that it returns.
use enr.Prelude.{◌^◌, ◌≤◌, ◌<◌, ◌≡◌, refl, sym, ap, ◌∙◌, some, ok, ret, arith, length}
use enr.Bytes.{compare_bytes, id_key, v4, from_utf8_lossy}
use enr.BtreeMap
use enr.BtreeMap.Laws.{get-insert_self, get-insert_ne}
use enr.Crates.Rlp.{Rlp, RlpLaws, total}
use enr.Crates.Hashing.{Keccak256}
use enr.Keys.Traits.{Entropy, EnrKey}
use enr.Keys.Laws.{KeyLaws, IsUnambiguous, Stores}
use enr.Enr.Defs.{Enr, max_enr_size}
use enr.Enr.Getters.{id, get, get_raw_rlp}
use enr.Enr.Encode.{size}
use enr.Enr.Decode.{is_keyof_u16}
use enr.Enr.RoundTrip.{signed_items, rlp_content-list_of, encode-list_of, items_of}
use enr.Enr.Commit.{IsSigned}
use enr.Enr.Valid.{
  IsSound, insert-IsSound, encode_bytes-IsSoundEntry, public_key-IsSoundEntry, IsOwned,
  signed-IsOwned,
}
use enr.Builder.Defs.{Builder, build, add_public_key, add_value_rlp}
use enr.Builder.Finish.{IsFinished, build-IsFinished, prepared}

module _ ⦃rlp : Rlp⦄ ⦃keccak : Keccak256⦄ {K P : Type 0} (keys : EnrKey K P) where
  module _ (law : RlpLaws rlp) where
    -- A stored identity scheme is read.
    id-stored :
        (e : Enr)
        → BtreeMap.get id_key e.content ≡ some (rlp.encode_bytes v4)
        → id e ≡ ret (some v4)
    unfolding id get get_raw_rlp from_utf8_lossy
    id-stored e h = ground (arith, law.data_of-encode_bytes v4)

    -- The eight bytes that `build` adds are enough for the headers.
    finished-size :
        (k : K) (rng : Entropy) (b : Builder) (e : Enr)
        → IsFinished keys k rng b e
        → size e ≤ max_enr_size
    unfolding size
    finished-size k rng b e f =
        let whole = ap length (encode-list_of e) in
        let content = ap length (rlp_content-list_of e) in
        let own = law.length-encode_bytes_le e.signature (omega (arith, f.small)) in
        let signed = law.total-lt-length-list_of (signed_items e) in
        let in_range : total (items_of e) < 2 ^ 16 = omega (arith, f.small, content, own, signed) in
        omega
          (arith, f.small, whole, content, own, signed, law.length-list_of_le (items_of e) in_range)

    module _ (key_law : KeyLaws keys) (own : IsUnambiguous keys) where
      prepared-IsSound :
          (k : K) (b : Builder) → IsSound b.content → IsSound (prepared keys k b).content
      unfolding add_public_key add_value_rlp
      prepared-IsSound k b s =
          let p = keys.public k in
          insert-IsSound (keys.enr_key p) _ _ (public_key-IsSoundEntry law keys key_law p) (
            insert-IsSound id_key (rlp.encode_bytes b.id) b.content
              (encode_bytes-IsSoundEntry law id_key b.id
                (unfold is_keyof_u16 compare_bytes in refl))
              s)

      prepared-Stores :
          (k : K) (b : Builder) → Stores keys (keys.public k) (prepared keys k b).content
      unfolding add_public_key add_value_rlp
      prepared-Stores k b = get-insert_self (keys.enr_key (keys.public k)) _ _

      prepared-id :
          (k : K) (b : Builder)
          → BtreeMap.get id_key (prepared keys k b).content ≡ some (rlp.encode_bytes b.id)
      unfolding add_public_key add_value_rlp
      prepared-id k b =
          get-insert_ne (keys.enr_key (keys.public k)) id_key _ _
            (λ i. (key_law.enr_key-IsFree (keys.public k)).ne_id (sym i))
          ∙ get-insert_self id_key (rlp.encode_bytes b.id) b.content

      prepared-seq : (k : K) (b : Builder) → (prepared keys k b).seq ≡ b.seq
      unfolding add_public_key add_value_rlp
      prepared-seq k b = refl

      -- A record that a builder with sound content and a number of 64 bits builds is valid, is the
      -- signer's, and has at most 300 bytes, the builder's number, and the identity scheme `v4`.
      -- The key type keeps the promises of the traits and reads a stored key as that key.
      pub build-IsOwned :
          (k : K) (rng : Entropy) (b b₁ : Builder) (e : Enr)
          → IsSound b.content
          → b.seq < 2 ^ 64
          → build keys k rng b ≡ ret (ok e, b₁)
          → IsOwned keys k e × (size e ≤ max_enr_size) × (e.seq ≡ b.seq) × (id e ≡ ret (some v4))
      build-IsOwned k rng b b₁ e s range h =
          let (_, scheme, f) = build-IsFinished keys k rng b b₁ e h in
          let scheme_read : id e ≡ ret (some v4) =
            id-stored e (rw (f.same, prepared-id k b, scheme) refl) in
          let signed : IsSigned keys k e = record {
            scheme = scheme_read;
            rng = rng;
            signed = f.signed;
          } in
          let seq_lem = f.numbered ∙ prepared-seq k b in
          (
            signed-IsOwned keys key_law own k e (rw seq_lem range)
                (rw f.same (prepared-IsSound k b s)) (rw f.same (prepared-Stores k b)) signed
                f.identified,
            finished-size k rng (prepared keys k b) e f,
            seq_lem,
            scheme_read,
          )
