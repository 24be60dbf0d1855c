-- ===== src/Enr/Revert.antt =====
-- Insertions that fail: which leave the record as it was.
use enr.Prelude.{
  ◌+◌, ◌^◌, ◌≤◌, ◌<◌, ◌≡◌, refl, ◌∙◌, true, false, Option, none, some, ok, err, ret, ltb, ◌⊎◌, inl,
  inr, if◌then◌else◌,
}
use enr.Bytes.{Bytes}
use enr.BtreeMap
use enr.BtreeMap.Laws.{IsSorted, insert-IsSorted}
use enr.BtreeMap.Restore.{restore, restore-insert}
use enr.Crates.Rlp.{Rlp}
use enr.Crates.Hashing.{Keccak256}
use enr.Error.{EnrError, exceeds_max_size, sequence_number_too_high}
use enr.Keys.Traits.{Entropy, EnrKey, Content}
use enr.Enr.Defs.{Enr, max_enr_size}
use enr.Enr.Encode.{size}
use enr.Enr.Action.{◌>>=◌, >>=-of_err, raise, gets, pure, content_revert}
use enr.Enr.Reserved.{check_spec_reserved_keys}
use enr.Enr.Sign.{compute_signature, commit}
use enr.Enr.Commit.Endings.{commit_exhausted, commit_unsigned}
use enr.Enr.Setters.{store, insert_raw_rlp}

abbrev pub with_content : Content → Enr → Enr
with_content content e = record e { content = content }

-- Two reverts, one after the other.
revert_two :
    {A : Type 0} (x : EnrError) (j k : Bytes) (p q : Option Bytes) (e : Enr)
    → (content_revert j p >>= λ _. content_revert k q >>= λ _. raise {A = A} x) e
      ≡ ret (err x, with_content (restore k q (restore j p e.content)) e)
revert_two x j k none none e = refl
revert_two x j k none (some w) e = refl
revert_two x j k (some v) none e = refl
revert_two x j k (some v) (some w) e = refl

module _ ⦃rlp : Rlp⦄ ⦃keccak : Keccak256⦄ {K P : Type 0} (keys : EnrKey K P) where
  -- The content with a value, and the signer's public key on top.
  abbrev pub stored_content : Bytes → Bytes → K → Content → Content
  stored_content key value k content =
      let p = keys.public k in
      BtreeMap.insert (keys.enr_key p) (rlp.encode_bytes (keys.encode p))
        (BtreeMap.insert key value content)

  -- The record before it is signed.
  abbrev pub unsigned : Bytes → Bytes → K → Enr → Enr
  unsigned key value k e = with_content (stored_content key value k e.content) e

  -- A record that would be too large is left as it was.
  pub store_big :
      (key value : Bytes) (k : K) (rng : Entropy) (e : Enr)
      → IsSorted e.content
      → ltb max_enr_size (size (unsigned key value k e)) ≡ true
      → store keys key value k rng e ≡ ret (err exceeds_max_size, e)
  unfolding store
  store_big key value k rng e s big =
      let p = keys.public k in
      let inner = BtreeMap.insert key value e.content in
      let first =
        restore-insert (keys.enr_key p) (rlp.encode_bytes (keys.encode p)) inner
          (insert-IsSorted key value e.content s) in
      let second = restore-insert key value e.content s in
      rw big (
        revert_two exceeds_max_size (keys.enr_key p) key _ _ (unsigned key value k e)
        ∙ rw (first, second) refl)

  pub store_fits :
      (key value : Bytes) (k : K) (rng : Entropy) (e : Enr)
      → ltb max_enr_size (size (unsigned key value k e)) ≡ false
      → store keys key value k rng e
        ≡ (commit keys k rng >>= λ _. gets (λ e. ltb max_enr_size (size e)) >>= λ grown.
              if grown then raise exceeds_max_size else pure (BtreeMap.get key e.content))
            (unsigned key value k e)
  unfolding store
  store_fits key value k rng e fits = rw fits refl

  -- At the largest sequence number an insertion that fits is refused, and its content stays.
  store_exhausted :
      (key value : Bytes) (k : K) (rng : Entropy) (e : Enr)
      → ltb max_enr_size (size (unsigned key value k e)) ≡ false
      → 2 ^ 64 ≤ e.seq + 1
      → store keys key value k rng e ≡ ret (err sequence_number_too_high, unsigned key value k e)
  store_exhausted key value k rng e fits full =
      store_fits key value k rng e fits
      ∙ >>=-of_err (commit keys k rng) _ (unsigned key value k e)
          (commit_exhausted keys rng k (unsigned key value k e) full)

  -- A failed signature leaves the new content and the new sequence number with the old signature.
  store_no_signature :
      (key value : Bytes) (k : K) (rng : Entropy) (e : Enr) {x : EnrError}
      → ltb max_enr_size (size (unsigned key value k e)) ≡ false
      → e.seq + 1 < 2 ^ 64
      → (let counted = record (unsigned key value k e) { seq = e.seq + 1 } in
          compute_signature keys rng k counted ≡ ret (err x)
          → store keys key value k rng e ≡ ret (err x, counted))
  store_no_signature key value k rng e fits more failed =
      store_fits key value k rng e fits
      ∙ >>=-of_err (commit keys k rng) _ (unsigned key value k e)
          (commit_unsigned keys rng k (unsigned key value k e) more failed)

module _ ⦃rlp : Rlp⦄ ⦃keccak : Keccak256⦄ {K P S V : Type 0} (keys : EnrKey K P)
    (k256 : EnrKey S V) where
  -- An insertion of a value that its reserved key does not take, or that would make the record too
  -- large before it is signed, fails and leaves the record as it was, if its keys ascend.
  pub insert_raw_rlp_reverted :
      (key value : Bytes) (k : K) (rng : Entropy) (e : Enr) {x : EnrError}
      → IsSorted e.content
      → (check_spec_reserved_keys k256 key value ≡ ret (err x))
        ⊎ ((x ≡ exceeds_max_size)
            × (check_spec_reserved_keys k256 key value ≡ ret (ok tt))
            × (ltb max_enr_size (size (unsigned keys key value k e)) ≡ true))
      → insert_raw_rlp keys k256 key value k rng e ≡ ret (err x, e)
  unfolding insert_raw_rlp
  insert_raw_rlp_reverted key value k rng e s (inl refused) = rw refused refl
  insert_raw_rlp_reverted key value k rng e s (inr (is_size, accepted, big)) =
      rw (accepted, is_size) (store_big keys key value k rng e s big)

  -- At the largest sequence number an insertion that is accepted and fits fails, and leaves the new
  -- value and the signer's public key in the record.
  pub insert_raw_rlp_exhausted :
      (key value : Bytes) (k : K) (rng : Entropy) (e : Enr)
      → check_spec_reserved_keys k256 key value ≡ ret (ok tt)
      → ltb max_enr_size (size (unsigned keys key value k e)) ≡ false
      → 2 ^ 64 ≤ e.seq + 1
      → insert_raw_rlp keys k256 key value k rng e
        ≡ ret (err sequence_number_too_high, unsigned keys key value k e)
  unfolding insert_raw_rlp
  insert_raw_rlp_exhausted key value k rng e accepted fits full =
      rw accepted (store_exhausted keys key value k rng e fits full)

  -- An insertion that is accepted and fits, and for which no signature can be made, fails and leaves
  -- the new content and the next sequence number in the record, under the old signature.
  pub insert_raw_rlp_no_signature :
      (key value : Bytes) (k : K) (rng : Entropy) (e : Enr) {x : EnrError}
      → check_spec_reserved_keys k256 key value ≡ ret (ok tt)
      → ltb max_enr_size (size (unsigned keys key value k e)) ≡ false
      → e.seq + 1 < 2 ^ 64
      → compute_signature keys rng k (record (unsigned keys key value k e) { seq = e.seq + 1 })
        ≡ ret (err x)
      → insert_raw_rlp keys k256 key value k rng e
        ≡ ret (err x, record (unsigned keys key value k e) { seq = e.seq + 1 })
  unfolding insert_raw_rlp
  insert_raw_rlp_no_signature key value k rng e accepted fits more failed =
      rw accepted (store_no_signature keys key value k rng e fits more failed)
