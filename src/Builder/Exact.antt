-- ===== src/Builder/Exact.antt =====
-- When `build` succeeds, and with which record.
use enr.Prelude.{
  ◌≡◌, ◌↔◌, refl, ◌∙◌, [], ◌∷◌, Bool, true, false, Option, none, some, Result, ok, err, ret, All,
  arith,
}
use enr.Bytes.{Bytes, ◌==◌, v4, compare_bytes}
use enr.Crates.Rlp.{Rlp, DecoderError}
use enr.Crates.Hashing.{Keccak256}
use enr.Keys.Traits.{Content, Entropy, EnrKey}
use enr.Enr.Defs.{Enr}
use enr.Builder.Defs.{Builder, first_invalid, build}
use enr.Builder.Finish.{IsFinished, build-IsFinished, prepared, build-clean, finish-signed}

module _ ⦃rlp : Rlp⦄ where
  -- `Rlp::data` reads the value.
  abbrev pub IsReadable : Bytes × Bytes → Type 0
  IsReadable (key, value) = (d : Bytes) × (rlp.data_of value ≡ ok d)

  first_invalid-All : (content : Content) → first_invalid content ≡ none → All IsReadable content
  unfolding first_invalid
  first_invalid-All [] h = tt
  first_invalid-All ((key, value) ∷ content) h =
      by_data (rlp.data_of value) refl (first_invalid-All content)
    where
      by_data :
          (r : Result DecoderError Bytes)
          → rlp.data_of value ≡ r
          → (first_invalid content ≡ none → All IsReadable content)
          → All IsReadable ((key, value) ∷ content)
      by_data (ok d) i rest = ((d, i), rest (ground (arith, i)))
      by_data (err x) i rest = absurd (ground (arith, i))

  All-first_invalid : (content : Content) → All IsReadable content → first_invalid content ≡ none
  unfolding first_invalid
  All-first_invalid [] a = refl
  All-first_invalid ((key, value) ∷ content) ((d, is_data), a) =
      rw (is_data, first_invalid) (All-first_invalid content a)

  module _ ⦃keccak : Keccak256⦄ {K P : Type 0} (keys : EnrKey K P) where
    -- What a success of `build` takes and gives.
    pub record Builds (k : K) (rng : Entropy) (b b₁ : Builder) (e : Enr) : Type 0 where
      pub scheme : b.id ≡ v4
      pub readable : All IsReadable b.content
      pub left : b₁ ≡ prepared keys k b
      pub finished : IsFinished keys k rng (prepared keys k b) e

    build-first_invalid :
        (k : K) (rng : Entropy) (b b₁ : Builder) (e : Enr)
        → build keys k rng b ≡ ret (ok e, b₁)
        → first_invalid b.content ≡ none
    unfolding build
    build-first_invalid k rng b b₁ e h = by_parts (b.id == v4) refl (first_invalid b.content) refl
      where
        by_parts :
            (scheme : Bool)
            → (b.id == v4) ≡ scheme
            → (o : Option Bytes) → first_invalid b.content ≡ o
            → first_invalid b.content ≡ none
        by_parts true s none i = i
        by_parts true s (some q) i = absurd (ground arith)
        by_parts false s o i = absurd (ground arith)

    Builds-build :
        (k : K) (rng : Entropy) (b b₁ : Builder) (e : Enr)
        → Builds k rng b b₁ e
        → build keys k rng b ≡ ret (ok e, b₁)
    Builds-build k rng b b₁ e d =
        let f = d.finished in
        let same_scheme : (b.id == v4) ≡ true = rw d.scheme (unfold compare_bytes in refl) in
        let ready : prepared keys k b ≡ record { id = v4; seq = e.seq; content = e.content } =
          ground (arith, f.scheme, f.numbered, f.same) in
        build-clean keys k rng b same_scheme (All-first_invalid b.content d.readable)
        ∙ rw ready (
            rw (finish-signed keys k rng e f.identified f.signed f.small) (rw (d.left, ready) refl))

    pub build_iff_Builds :
        (k : K) (rng : Entropy) (b b₁ : Builder) (e : Enr)
        → (build keys k rng b ≡ ret (ok e, b₁)) ↔ Builds k rng b b₁ e
    build_iff_Builds k rng b b₁ e = (builds, Builds-build k rng b b₁ e)
      where
        builds : build keys k rng b ≡ ret (ok e, b₁) → Builds k rng b b₁ e
        builds h =
            let (left, scheme, finished) = build-IsFinished keys k rng b b₁ e h in
            record {
              scheme = scheme;
              readable = first_invalid-All b.content (build-first_invalid k rng b b₁ e h);
              left = left;
              finished = finished;
            }
