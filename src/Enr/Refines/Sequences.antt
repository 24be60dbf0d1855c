-- ===== src/Enr/Refines/Sequences.antt =====
-- Sequences of updates refine those of the abstract ones, and the view is all that is encoded.
use enr.Prelude.{◌≡◌, refl, sym, subst, ap, ◌∙◌, List, [], ◌∷◌, Result, ok, ret, All, arith}
use enr.Crates.Rlp.{Rlp, RlpLaws}
use enr.Crates.Hashing.{Keccak256, KeccakLaws}
use enr.Error.{EnrError}
use enr.Keys.Traits.{Entropy, EnrKey}
use enr.Keys.Laws.{KeyLaws, IsUnambiguous}
use enr.Enr.Defs.{Enr}
use enr.Enr.Calls.{Call, run, run_all}
use enr.Enr.Abstract.{view, apply, replay}
use enr.Enr.Refines.{run-view}
use enr.Enr.Safety.{IsSafe}
use enr.Enr.Safety.Calls.{Admissible, Keeps-run, run_all_total}

module _ ⦃rlp : Rlp⦄ (law : RlpLaws rlp) ⦃keccak : Keccak256⦄ (keccak_law : KeccakLaws keccak)
    {K P S V : Type 0} (keys : EnrKey K P) (key_law : KeyLaws keys) (own : IsUnambiguous keys)
    (k256 : EnrKey S V) (k256_law : KeyLaws k256) where
  -- A sequence of updates that all succeed does to the sequence number and to what is read under each
  -- key what the abstract updates do, whoever signs each of them. The abstract `set_seq` only sets the
  -- sequence number; any other update adds one to it, and writes each of its values under its key and
  -- then the signer's public key under its name, where `remove_insert` makes the removed keys absent,
  -- writes the public key and then the new values. At the start the record has sound content and a
  -- sequence number of 64 bits; values that are inserted by `insert_raw_rlp` and `insert` are single
  -- items that their keys admit, and ports and sequence numbers that are set have 16 and 64 bits. The
  -- key type keeps the promises of the traits and reads a stored key as that key; the key type that
  -- checks the reserved keys keeps the promises too.
  pub run_all-replay :
      (calls : List (Call P × K × Entropy)) (e e' : Enr)
      (results : List (Result EnrError (Unit {0})))
      → IsSafe e
      → All (λ (c : Call P × K × Entropy). Admissible c.0) calls
      → run_all keys k256 calls e ≡ ret (results, e')
      → All (λ r. r ≡ ok tt) results
      → view e' ≡ replay keys calls (view e)
  unfolding run_all replay
  run_all-replay [] e e' results s a h good = ap view (ground (arith, h))
  run_all-replay ((c, k, rng) ∷ calls) e e' results s a h good =
      let d = Keeps-run law keccak_law keys key_law k256 k256_law c k rng a.0 e s in
      let (rest, e₁, ran, _, _, _) =
        run_all_total law keccak_law keys key_law k256 k256_law calls d.left d.safe a.1 in
      by_first d.result d.left rest e₁ d.returned ran
        (run_all-replay calls d.left e₁ rest d.safe a.1 ran)
    where
      by_first :
          (r : Result EnrError (Unit {0})) (left : Enr) (rest : List (Result EnrError (Unit {0})))
          (e₁ : Enr)
          → run keys k256 c k rng e ≡ ret (r, left)
          → run_all keys k256 calls left ≡ ret (rest, e₁)
          → (All (λ r. r ≡ ok tt) rest → view e₁ ≡ replay keys calls (view left))
          → view e' ≡ replay keys calls (apply keys c (keys.public k) (view e))
      by_first r left rest e₁ first ran later =
          let all : ret (r ∷ rest, e₁) ≡ ret (results, e') = sym (rw first (rw ran refl)) ∙ h in
          let is_results : r ∷ rest ≡ results = ground (arith, all) in
          let is_left : e₁ ≡ e' = ground (arith, all) in
          let split = subst (All (λ r. r ≡ ok tt)) (sym is_results) good in
          let here =
            run-view keys k256 law key_law own c k rng e left s.sound (first ∙ rw split.0 refl) in
          rw (← is_left) (later split.1) ∙ ap (replay keys calls) here
