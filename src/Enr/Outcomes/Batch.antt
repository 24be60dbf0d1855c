-- ===== src/Enr/Outcomes/Batch.antt =====
-- `remove_insert` ends as Enr.Outcome says.
use mathlib.Core.Path.{fun_ext}
use enr.Prelude.{
  ap, ◌≡◌, refl, ◌∙◌, List, [], ◌∷◌, ◌&&◌, not, Bool, true, false, Option, Result, ok, err, ret,
}
use enr.Bytes.{Bytes, ◌==◌, id_key, v4}
use enr.BtreeMap
use enr.Crates.Rlp.{Rlp}
use enr.Crates.Hashing.{Keccak256}
use enr.Error.{EnrError, exceeds_max_size, unsupported_identity_scheme}
use enr.Keys.Traits.{Entropy, EnrKey}
use enr.Enr.Defs.{Enr}
use enr.Enr.Decode.{is_keyof_u16}
use enr.Enr.Reserved.{check_port}
use enr.Enr.Action.{◌>>=◌, >>=-of_ok, >>=-of_err, raise, pure}
use enr.Enr.RemoveInsert.{insert_one, insert_all, remove_insert, revert_to}
use enr.Enr.Removal.{replaced, taken}
use enr.Enr.Removal.Update.{prepared, insert_and_commit, remove_insert_lem}
use enr.Enr.Revert.{with_content}
use enr.Enr.Outcome.{
  Ending, Placed, placed, foreign_scheme, bad_port, place, sign_outcome, remove_insert_outcome,
}
use enr.Enr.Outcomes.{commit-outcome, sized_lem}

module _ ⦃rlp : Rlp⦄ where
  -- How the loop over the new values ends.
  abbrev place_ending : Enr → List (Bytes × Bytes) → Enr → Placed → Ending (List (Option Bytes))
  place_ending backup kvs e (placed content) =
      ret (ok (replaced kvs e.content), with_content content e)
  place_ending backup kvs e foreign_scheme = ret (err unsupported_identity_scheme, backup)
  place_ending backup kvs e (bad_port x content) = ret (err x, with_content content e)

  -- A value that is stored, and the rest of the loop.
  stored_then :
      (backup : Enr) (key value : Bytes) (rest : List (Bytes × Bytes)) (e : Enr) (p : Placed)
      → (let next = with_content (BtreeMap.insert key (rlp.encode_bytes value) e.content) e in
          insert_one backup key value e ≡ ret (ok (BtreeMap.get key e.content), next)
          → insert_all backup rest next ≡ place_ending backup rest next p
          → insert_all backup ((key, value) ∷ rest) e
            ≡ place_ending backup ((key, value) ∷ rest) e p)
  unfolding insert_all
  stored_then backup key value rest e p h later =
      >>=-of_ok (insert_one backup key value) _ e h ∙ by_rest p later
    where
      next : Enr
      next = with_content (BtreeMap.insert key (rlp.encode_bytes value) e.content) e

      by_rest :
          (p : Placed)
          → insert_all backup rest next ≡ place_ending backup rest next p
          → (insert_all backup rest >>= λ inserted. pure (BtreeMap.get key e.content ∷ inserted))
              next
            ≡ place_ending backup ((key, value) ∷ rest) e p
      by_rest (placed content) i = >>=-of_ok (insert_all backup rest) _ next i
      by_rest foreign_scheme i = >>=-of_err (insert_all backup rest) _ next i
      by_rest (bad_port x content) i = >>=-of_err (insert_all backup rest) _ next i

  insert_all-place :
      (backup : Enr) (kvs : List (Bytes × Bytes)) (e : Enr)
      → insert_all backup kvs e ≡ place_ending backup kvs e (place kvs e.content)
  unfolding insert_all insert_one place
  insert_all-place backup [] e = refl
  insert_all-place backup ((key, value) ∷ rest) e =
      by_tests (key == id_key && not (value == v4)) refl (is_keyof_u16 key) refl
        (check_port (rlp.encode_bytes value)) refl
        (insert_all-place backup rest
          (with_content (BtreeMap.insert key (rlp.encode_bytes value) e.content) e))
    where
      next : Enr
      next = with_content (BtreeMap.insert key (rlp.encode_bytes value) e.content) e

      by_tests :
          (foreign : Bool)
          → (key == id_key && not (value == v4)) ≡ foreign
          → (is_port : Bool) → is_keyof_u16 key ≡ is_port
          → (r : Result EnrError (Unit {0})) → check_port (rlp.encode_bytes value) ≡ r
          → insert_all backup rest next ≡ place_ending backup rest next (place rest next.content)
          → insert_all backup ((key, value) ∷ rest) e
            ≡ place_ending backup ((key, value) ∷ rest) e (place ((key, value) ∷ rest) e.content)
      by_tests true f is_port i r j later =
          >>=-of_err {x = unsupported_identity_scheme} {e₁ = backup} (insert_one backup key value) _
            e (rw (f, insert_one) refl)
          ∙ rw f refl
      by_tests false f true i (err x) j later =
          >>=-of_err {x = x} {e₁ = e} (insert_one backup key value) _ e
            (rw (f, insert_one) (rw i (rw j refl)))
          ∙ rw f (rw i (rw j refl))
      by_tests false f true i (ok tt) j later =
          stored_then backup key value rest e (place rest next.content)
            (rw (f, insert_one) (rw i (rw j refl))) later
          ∙ rw f (rw i (rw j refl))
      by_tests false f false i r j later =
          stored_then backup key value rest e (place rest next.content)
            (rw (f, insert_one) (rw i refl)) later
          ∙ rw f (rw i refl)

  module _ ⦃keccak : Keccak256⦄ {K P : Type 0} (keys : EnrKey K P) where
    -- `remove_insert` does exactly this: the keys are removed, the signer's public key is stored, and
    -- the values are stored one after the other. An identity scheme that is not `v4` leaves the old
    -- record; a port that is no `u16` leaves the record with the values before it, unsigned. At the
    -- largest sequence number the record with all values is refused and stays, a failed signature
    -- leaves it with the next sequence number, a signed record of more than 300 bytes leaves the old
    -- one, and any other is returned with what was under each key before its step.
    pub remove_insert-outcome :
        (remove_keys : List Bytes) (kvs : List (Bytes × Bytes)) (k : K) (rng : Entropy) (e : Enr)
        → remove_insert keys remove_keys kvs k rng e
          ≡ remove_insert_outcome keys remove_keys kvs k rng e
    unfolding remove_insert_outcome
    remove_insert-outcome remove_keys kvs k rng e =
        remove_insert_lem keys remove_keys kvs k rng e ∙ by_place (place kvs start.content) refl
      where
        start : Enr
        start = with_content (prepared keys remove_keys k e.content) e

        removals : List (Option Bytes)
        removals = taken remove_keys e.content

        by_place :
            (p : Placed)
            → place kvs start.content ≡ p
            → insert_and_commit keys e removals kvs k rng start
              ≡ remove_insert_outcome keys remove_keys kvs k rng e
        by_place foreign_scheme h =
            >>=-of_err {x = unsupported_identity_scheme} {e₁ = e} (insert_all e kvs) _ start
              (insert_all-place e kvs start ∙ rw h refl)
            ∙ rw (h, remove_insert_outcome) refl
        by_place (bad_port x content) h =
            >>=-of_err {x = x} {e₁ = with_content content e} (insert_all e kvs) _ start
              (insert_all-place e kvs start ∙ rw h refl)
            ∙ rw (h, remove_insert_outcome) refl
        by_place (placed content) h =
            let filled = with_content content e in
            let returned : List (Option Bytes) × List (Option Bytes) =
              (removals, replaced kvs start.content) in
            >>=-of_ok {a = replaced kvs start.content} {e₁ = filled} (insert_all e kvs) _ start
              (insert_all-place e kvs start ∙ rw h refl)
            ∙ commit-outcome keys _ k rng filled
            ∙ rw (h, remove_insert_outcome)
                (ap
                  (λ (f : Enr → Ending (List (Option Bytes) × List (Option Bytes))).
                    sign_outcome keys f k rng filled)
                  (fun_ext λ signed.
                    sized_lem keys returned (revert_to e >>= λ _. raise exceeds_max_size) (λ _. e)
                      signed refl))
