-- ===== src/Enr/Outcomes.antt =====
-- The updates of src/lib.rs end as Enr.Outcome says, with all that they do and undo on the way.
pub mod Batch
use mathlib.Core.Path.{fun_ext}
use enr.Prelude.{
  ℕ, ap, ◌+◌, ◌^◌, ◌≡◌, refl, sym, ◌∙◌, List, [], ◌∷◌, ◌&&◌, not, Bool, true, false, Bool-cases,
  inl, inr, Option, Result, ok, err, Panics, ret, panic, ltb, ltb→lt, arith, if◌then◌else◌,
}
use enr.Bytes.{Bytes, ◌==◌, id_key, v4}
use enr.BtreeMap
use enr.BtreeMap.Laws.{IsSorted}
use enr.Crates.Rlp.{Rlp}
use enr.Crates.Hashing.{Keccak256}
use enr.Error.{EnrError, exceeds_max_size, sequence_number_too_high}
use enr.NodeId.{NodeId, of_public_key}
use enr.Keys.Traits.{Content, Entropy, EnrKey}
use enr.Enr.Defs.{Enr, SocketAddr, max_enr_size}
use enr.Enr.Encode.{size}
use enr.Enr.Action.{Action, ◌>>=◌, >>=-of_ok, >>=-of_err, >>=-of_panic, >>=-pure, pure, gets, raise}
use enr.Enr.Commit.Endings.{commit_exhausted, commit_unsigned, commit_signed, commit_panics}
use enr.Enr.Reserved.{check_spec_reserved_keys}
use enr.Enr.Sign.{set_seq, compute_signature, sign, commit}
use enr.Enr.Setters.{insert_raw_rlp, store}
use enr.Enr.Socket.{entries, set_entries, set_socket}
use enr.Enr.SocketUpdate.{with_entries, entries_ne, set_entries_big, set_entries_fits}
use enr.Enr.Revert.{unsigned, store_big, store_fits}
use enr.Enr.Outcome.{Ending, sign_outcome, sized, insert_outcome, socket_outcome, seq_outcome}

module _ ⦃rlp : Rlp⦄ ⦃keccak : Keccak256⦄ {K P : Type 0} (keys : EnrKey K P) where
  -- A signature, and what is done with the signed record.
  pub commit-outcome :
      {A : Type 0} (f : Unit {0} → Action A) (k : K) (rng : Entropy) (e : Enr)
      → (commit keys k rng >>= f) e ≡ sign_outcome keys (f tt) k rng e
  unfolding commit sign
  commit-outcome {A} f k rng e =
      by_parts (ltb (e.seq + 1) (2 ^ 64)) refl
        (compute_signature keys rng k (record e { seq = e.seq + 1 })) refl
        (of_public_key keys.public_key (keys.public k)) refl
    where
      by_parts :
          (more : Bool)
          → ltb (e.seq + 1) (2 ^ 64) ≡ more
          → (r : Panics (Result EnrError Bytes))
          → compute_signature keys rng k (record e { seq = e.seq + 1 }) ≡ r
          → (n : Panics NodeId) → of_public_key keys.public_key (keys.public k) ≡ n
          → (commit keys k rng >>= f) e ≡ sign_outcome keys (f tt) k rng e
      by_parts false h r i n j =
          >>=-of_err (commit keys k rng) f e (commit_exhausted keys rng k e (ground arith))
          ∙ rw h refl
      by_parts true h panic i n j =
          >>=-of_panic (commit keys k rng) f e (commit_panics keys rng k e (ltb→lt _ _ h) (inl i))
          ∙ rw h (rw i refl)
      by_parts true h (ret (err x)) i n j =
          >>=-of_err (commit keys k rng) f e (commit_unsigned keys rng k e (ltb→lt _ _ h) i)
          ∙ rw h (rw i refl)
      by_parts true h (ret (ok sig)) i panic j =
          >>=-of_panic (commit keys k rng) f e
            (commit_panics keys rng k e (ltb→lt _ _ h) (inr (sig, i, j)))
          ∙ rw h (rw i (rw j refl))
      by_parts true h (ret (ok sig)) i (ret m) j =
          >>=-of_ok (commit keys k rng) f e (commit_signed keys rng k e (ltb→lt _ _ h) i j)
          ∙ rw h (rw i (rw j refl))

  -- The last step of a chain that only signs.
  commit-outcome_alone :
      (k : K) (rng : Entropy) (e : Enr)
      → commit keys k rng e ≡ sign_outcome keys (λ signed. ret (ok tt, signed)) k rng e
  commit-outcome_alone k rng e = sym (>>=-pure (commit keys k rng) e) ∙ commit-outcome pure k rng e

  -- `set_socket` on a record whose keys ascend does exactly this, and panics where a call in it does: a
  -- record that would be too large
  -- before it is signed leaves the old one; then the address, the port and the signer's public key
  -- stay in the record whatever happens: at the largest sequence number it is refused, a failed
  -- signature leaves it with the next sequence number, and a signed record is returned, whatever its
  -- size.
  pub set_socket-outcome :
      (socket : SocketAddr) (k : K) (is_tcp : Bool) (rng : Entropy) (e : Enr)
      → IsSorted e.content
      → set_socket keys socket k is_tcp rng e ≡ socket_outcome keys socket k is_tcp rng e
  unfolding set_socket socket_outcome
  set_socket-outcome socket k is_tcp rng e sorted =
      let s = entries socket is_tcp in
      elim (Bool-cases (ltb max_enr_size (size (with_entries keys s k e)))) [
        | inl big ↦
            set_entries_big keys s k rng e (entries_ne socket is_tcp) sorted big ∙ rw big refl
        | inr fits ↦
            set_entries_fits keys s k rng e fits
            ∙ rw fits (commit-outcome_alone k rng (with_entries keys s k e))
      ]

  -- `set_seq` does exactly this, and panics where a call in it does: a failed signature, and a record
  -- of more than 300 bytes once it is signed, leave the old record; any other is returned with the
  -- number, the signature and the signer's identifier.
  pub set_seq-outcome :
      (seq : ℕ) (k : K) (rng : Entropy) (e : Enr)
      → set_seq keys seq k rng e ≡ seq_outcome keys seq k rng e
  unfolding set_seq seq_outcome sign
  set_seq-outcome seq k rng e =
      by_parts (compute_signature keys rng k (record e { seq = seq })) refl
        (of_public_key keys.public_key (keys.public k)) refl
    where
      by_parts :
          (r : Panics (Result EnrError Bytes))
          → compute_signature keys rng k (record e { seq = seq }) ≡ r
          → (n : Panics NodeId) → of_public_key keys.public_key (keys.public k) ≡ n
          → set_seq keys seq k rng e ≡ seq_outcome keys seq k rng e
      by_parts panic i n j = rw (i, seq_outcome) refl
      by_parts (ret (err x)) i n j = rw (i, seq_outcome) refl
      by_parts (ret (ok sig)) i n j =
          elim (Bool-cases (ltb max_enr_size (size (record e { seq = seq; signature = sig })))) [
            | inl big ↦ rw (i, seq_outcome) (rw big refl)
            | inr fits ↦ by_name n j i fits
          ]
        where
          by_name :
              (n : Panics NodeId)
              → of_public_key keys.public_key (keys.public k) ≡ n
              → compute_signature keys rng k (record e { seq = seq }) ≡ ret (ok sig)
              → ltb max_enr_size (size (record e { seq = seq; signature = sig })) ≡ false
              → set_seq keys seq k rng e ≡ seq_outcome keys seq k rng e
          by_name panic j i fits = rw (i, seq_outcome) (rw fits (rw j refl))
          by_name (ret m) j i fits = rw (i, seq_outcome) (rw fits (rw j refl))

  -- The last test of the size, by what it leaves of a record that has grown too large.
  pub sized_lem :
      {A : Type 0} (a : A) (failed : Action A) (otherwise : Enr → Enr) (e : Enr)
      → failed e ≡ ret (err exceeds_max_size, otherwise e)
      → (gets (λ e. ltb max_enr_size (size e)) >>= λ grown. if grown then failed else pure a) e
        ≡ sized keys a otherwise e
  sized_lem a failed otherwise e h = elim (Bool-cases (ltb max_enr_size (size e))) [
    | inl big ↦ rw big h
    | inr fits ↦ rw fits refl
  ]

  module _ {S V : Type 0} (k256 : EnrKey S V) where
    -- An insertion into a record whose keys ascend does exactly this, and panics where a call in it
    -- does: an error of the check of the reserved keys, and a record that would be too large before it
    -- is signed, leave the old one; then the value and the signer's public key stay in the record
    -- whatever happens: at the largest sequence number it is refused, a failed signature leaves it
    -- with the next sequence number, a signed record of more than 300 bytes is an error, and any other
    -- is returned with the previous value.
    pub insert_raw_rlp-outcome :
        (key value : Bytes) (k : K) (rng : Entropy) (e : Enr)
        → IsSorted e.content
        → insert_raw_rlp keys k256 key value k rng e ≡ insert_outcome keys k256 key value k rng e
    unfolding insert_raw_rlp insert_outcome
    insert_raw_rlp-outcome key value k rng e sorted =
        by_check (check_spec_reserved_keys k256 key value) refl
      where
        by_check :
            (r : Panics (Result EnrError (Unit {0})))
            → check_spec_reserved_keys k256 key value ≡ r
            → insert_raw_rlp keys k256 key value k rng e
              ≡ insert_outcome keys k256 key value k rng e
        by_check panic h = rw (h, insert_outcome) refl
        by_check (ret (err x)) h = rw (h, insert_outcome) refl
        by_check (ret (ok tt)) h =
            elim (Bool-cases (ltb max_enr_size (size (unsigned keys key value k e)))) [
              | inl big ↦
                  rw (h, insert_outcome) (store_big keys key value k rng e sorted big ∙ rw big refl)
              | inr fits ↦
                  rw (h, insert_outcome)
                    (store_fits keys key value k rng e fits
                      ∙ commit-outcome _ k rng (unsigned keys key value k e)
                      ∙ rw fits (
                          ap
                            (λ (f : Enr → Ending (Option Bytes)).
                              sign_outcome keys f k rng (unsigned keys key value k e))
                            (fun_ext λ signed.
                              sized_lem (BtreeMap.get key e.content) (raise exceeds_max_size)
                                (λ s. s) signed refl)))
            ]
