-- ===== src/Builder/Finish.antt =====
-- How `build` ends: the builder that is signed, and the record that it becomes.
use enr.Prelude.{
  ◌+◌, ◌≤◌, ◌≡◌, refl, Option, none, some, Bool, true, false, Result, ok, err, Panics, ret, panic,
  arith, length, ltb,
}
use enr.Prelude.Panicking.{◌>>=◌}
use enr.Bytes.{Bytes, ◌==◌, id_key, v4, compare_bytes}
use enr.Bytes.Laws.{eq_of_compare}
use enr.Crates.Rlp.{Rlp}
use enr.Crates.Hashing.{Keccak256}
use enr.NodeId.{NodeId, of_public_key}
use enr.Error.{EnrError}
use enr.Keys.Traits.{Entropy, EnrKey, SigningError}
use enr.Enr.Defs.{Enr, max_enr_size}
use enr.Enr.Encode
use enr.Enr.Encode.{size}
use enr.Builder.Defs.{
  Builder, rlp_content, signature, finish, build, add_public_key, add_value_rlp, first_invalid,
}

module _ ⦃rlp : Rlp⦄ ⦃keccak : Keccak256⦄ {K P : Type 0} (keys : EnrKey K P) where
  -- The builder and the record that it becomes sign the same bytes.
  pub rlp_content_lem :
      (b : Builder) (e : Enr)
      → e.seq ≡ b.seq
      → e.content ≡ b.content
      → Encode.rlp_content e ≡ rlp_content b
  unfolding rlp_content Encode.rlp_content Encode.append_rlp_content
  rlp_content_lem b e s c = ground (arith, s, c)

  -- How a builder that is finished becomes a record.
  pub record IsFinished (k : K) (rng : Entropy) (b : Builder) (e : Enr) : Type 0 where
    pub scheme : b.id ≡ v4
    pub numbered : e.seq ≡ b.seq
    pub same : e.content ≡ b.content
    pub signed : keys.sign_v4 rng k (Encode.rlp_content e) ≡ ok e.signature
    pub identified : of_public_key keys.public_key (keys.public k) ≡ ret e.node_id
    pub small : length (Encode.rlp_content e) + length e.signature + 8 ≤ max_enr_size

  pub finish-IsFinished :
      (k : K) (rng : Entropy) (b : Builder) (e : Enr)
      → finish keys k rng b ≡ ret (ok e)
      → IsFinished k rng b e
  unfolding finish signature
  finish-IsFinished k rng b e h =
      by_parts (b.id == v4) refl (keys.sign_v4 rng k (rlp_content b)) refl
        (of_public_key keys.public_key (keys.public k)) refl
    where
      by_parts :
          (scheme : Bool)
          → (b.id == v4) ≡ scheme
          → (r : Result SigningError Bytes) → keys.sign_v4 rng k (rlp_content b) ≡ r
          → (n : Panics NodeId) → of_public_key keys.public_key (keys.public k) ≡ n
          → IsFinished k rng b e
      by_parts true s (ok sig) i (ret n) j =
          let is_e : e ≡ record { seq = b.seq; node_id = n; content = b.content; signature = sig } =
            ground arith in
          let same_bytes = rlp_content_lem b e (ground arith) (ground arith) in
          record {
            scheme = ground (arith, eq_of_compare b.id v4);
            numbered = ground arith;
            same = ground arith;
            signed = ground (arith, same_bytes);
            identified = ground arith;
            small = ground (arith, same_bytes);
          }
      by_parts true s (ok sig) i panic j = absurd (ground arith)
      by_parts true s (err x) i n j = absurd (ground arith)
      by_parts false s r i n j = absurd (ground arith)

  -- The builder that is signed.
  abbrev pub prepared : K → Builder → Builder
  prepared k b =
      add_public_key keys.public_key (keys.public k)
        (add_value_rlp id_key (rlp.encode_bytes b.id) b)

  pub build-IsFinished :
      (k : K) (rng : Entropy) (b b₁ : Builder) (e : Enr)
      → build keys k rng b ≡ ret (ok e, b₁)
      → (b₁ ≡ prepared k b) × (b.id ≡ v4) × IsFinished k rng (prepared k b) e
  unfolding build
  build-IsFinished k rng b b₁ e h =
      by_parts (b.id == v4) refl (first_invalid b.content) refl (finish keys k rng (prepared k b))
        refl
    where
      by_parts :
          (scheme : Bool)
          → (b.id == v4) ≡ scheme
          → (o : Option Bytes) → first_invalid b.content ≡ o
          → (r : Panics (Result EnrError Enr)) → finish keys k rng (prepared k b) ≡ r
          → (b₁ ≡ prepared k b) × (b.id ≡ v4) × IsFinished k rng (prepared k b) e
      by_parts true s none i (ret (ok e₁)) j = (
        ground arith,
        ground (arith, eq_of_compare b.id v4),
        finish-IsFinished k rng (prepared k b) e (ground arith),
      )
      by_parts true s none i (ret (err x)) j = absurd (ground arith)
      by_parts true s none i panic j = absurd (ground arith)
      by_parts true s (some q) i r j = absurd (ground arith)
      by_parts false s o i r j = absurd (ground arith)

  -- A builder of the scheme `v4` whose values can be read is prepared and finished.
  pub build-clean :
      (k : K) (rng : Entropy) (b : Builder)
      → (b.id == v4) ≡ true
      → first_invalid b.content ≡ none
      → build keys k rng b
        ≡ (finish keys k rng (prepared k b) >>= λ result. ret (result, prepared k b))
  unfolding build
  build-clean k rng b scheme clean = rw (scheme, clean) refl

  -- A builder that is signed, and fits, is finished.
  pub finish-signed :
      (k : K) (rng : Entropy) (e : Enr) {sig : Bytes}
      → of_public_key keys.public_key (keys.public k) ≡ ret e.node_id
      → keys.sign_v4 rng k (Encode.rlp_content e) ≡ ok sig
      → length (Encode.rlp_content e) + length sig + 8 ≤ max_enr_size
      → finish keys k rng (record { id = v4; seq = e.seq; content = e.content })
        ≡ ret (ok (record e { signature = sig }))
  unfolding finish signature compare_bytes
  finish-signed k rng e {sig} named signed small =
      let b : Builder = record { id = v4; seq = e.seq; content = e.content } in
      let same_bytes = rlp_content_lem b e refl refl in
      let fits : ltb max_enr_size (length (Encode.rlp_content e) + length sig + 8) ≡ false =
        ground (arith, small) in
      ground (arith, same_bytes, signed, fits, named)
