-- ===== src/UnitTests/Passes/Compare.antt =====
-- The test that compares records under several signatures.
use enr.Prelude.{◌≡◌, ◌≢◌, refl, sym, ap, ◌∙◌, [], ◌∷◌, Bool, true, false, ok, ret, arith}
use enr.Bytes.{Bytes, ◌==◌}
use enr.Bytes.Laws.{compare_refl, eq_of_compare}
use enr.Crates.Rlp.{Rlp, RlpLaws}
use enr.Crates.Hashing.{Keccak256, KeccakLaws}
use enr.Keys.Traits.{Entropy, EnrKey}
use enr.Keys.Laws.{KeyLaws, IsUnambiguous, IsCompact}
use enr.Enr.Defs.{Enr}
use enr.Enr.Abstract.{View, view}
use enr.Enr.Getters.{signature}
use enr.Enr.Encode.{compare_content, enr_eq, rlp_content}
use enr.Enr.Format.{clone}
use enr.Enr.Safety.{IsSafe}
use enr.Enr.Commit.{rlp_content-eq}
use enr.Enr.Refines.Signed.{compare_content_iff}
use enr.Enr.Room.Seq.{IsRenumbered, set_seq_fits}
use enr.Builder
use enr.Builder.{builder}
use enr.UnitTests.Codecs.{built}
use enr.UnitTests.Updates.{test_compare_content}
use enr.UnitTests.Passes.{started, builder-IsLight, tcp4-IsLight, ip4-IsLight}

signatures_apart : (a b : Enr) → a.signature ≢ b.signature → (signature a == signature b) ≡ false
unfolding signature
signatures_apart a b ne = ground (arith, eq_of_compare a.signature b.signature)

enr_eq_apart : (a b : Enr) → a.signature ≢ b.signature → enr_eq a b ≡ false
unfolding enr_eq
enr_eq_apart a b ne = ground (arith, eq_of_compare a.signature b.signature)

module _ ⦃rlp : Rlp⦄ (law : RlpLaws rlp) where
  content_alike : (a b : Enr) → a.seq ≡ b.seq → a.content ≡ b.content → compare_content a b ≡ true
  unfolding compare_content
  content_alike a b numbered same =
      rw (rlp_content-eq a b numbered same) (ground (arith, compare_refl (rlp_content b)))

  content_apart : (a b : Enr) → IsSafe a → IsSafe b → a.seq ≢ b.seq → compare_content a b ≡ false
  content_apart a b s t ne = by_result (compare_content a b) refl
    where
      by_result : (r : Bool) → compare_content a b ≡ r → r ≡ false
      by_result false i = refl
      by_result true i =
          absurd
            (ne (unfold view in ap (λ (w : View). w.seq) ((compare_content_iff law a b s t).0 i)))

  module _ ⦃keccak : Keccak256⦄ {K P : Type 0} (keys : EnrKey K P) (compact : IsCompact keys)
      (keccak_law : KeccakLaws keccak) (key_law : KeyLaws keys) (own : IsUnambiguous keys) (key : K)
      (signs : (rng : Entropy) (msg : Bytes)
        → (sig : Bytes) × (keys.sign_v4 rng key msg ≡ ok sig)) where
    -- The test passes if the record's signature differs from those of the records that are signed anew,
    -- which is up to the randomness of the signatures.
    pub test_compare_content_passes :
        (rng rng' rng'' : Entropy)
        → ((e e2 e3 : Enr)
            → built keys key rng (Builder.tcp4 30303 (Builder.ip4 (10 ∷ 0 ∷ 0 ∷ 1 ∷ []) builder))
              ≡ ret e
            → IsRenumbered law keys compact keccak_law key_law 1 key rng' e e2
            → IsRenumbered law keys compact keccak_law key_law 2 key rng'' e e3
            → (e.signature ≢ e2.signature) × (e.signature ≢ e3.signature))
        → test_compare_content keys key rng rng' rng'' ≡ ret tt
    unfolding test_compare_content clone
    test_compare_content_passes rng rng' rng'' fresh =
        let ip = 10 ∷ 0 ∷ 0 ∷ 1 ∷ [] in
        let b = Builder.tcp4 30303 (Builder.ip4 ip builder) in
        let light =
          tcp4-IsLight law 30303 12 _ (omega arith) (ip4-IsLight law ip 0 _ refl builder-IsLight) in
        let (e, builds, s) =
          started law keys compact keccak_law key_law own key signs 30 rng b (omega arith) light in
        let (e2, second) =
          set_seq_fits law keys compact keccak_law key_law 1 key rng' e s.scheme (omega arith)
            (omega (arith, s.light, light.light)) (signs rng') in
        let (e3, third) =
          set_seq_fits law keys compact keccak_law key_law 2 key rng'' e s.scheme (omega arith)
            (omega (arith, s.light, light.light)) (signs rng'') in
        let (ne2, ne3) = fresh e e2 e3 builds second third in
        let safe : IsSafe e = record {
          seq_range = omega (arith, s.counted);
          sound = s.owned.valid.sound;
        } in
        let safe3 : IsSafe e3 = record {
          seq_range = omega (arith, third.numbered);
          sound = rw third.same s.owned.valid.sound;
        } in
        rw
          (
            builds,
            second.ran,
            third.ran,
            signatures_apart e e2 ne2,
            content_alike e e2 (s.counted ∙ sym second.numbered) (sym second.same),
            enr_eq_apart e e2 ne2,
            signatures_apart e e3 ne3,
            content_apart e e3 safe safe3 (omega (arith, s.counted, third.numbered)),
            enr_eq_apart e e3 ne3,
          )
          refl
