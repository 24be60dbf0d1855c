-- ===== src/Enr/Update.antt =====
-- Successful insertions.
use enr.Prelude.{
  ◌+◌, ◌≤◌, ◌≡◌, Bool-cases, inl, inr, Option, some, ok, err, ret, arith, ltb, refl, sym, ◌∙◌,
  if◌then◌else◌, Result, Panics, panic,
}
use enr.Bytes.{Bytes, ◌==◌}
use enr.BtreeMap
use enr.BtreeMap.Laws.{IsSorted, get-insert_self, get-insert}
use enr.Crates.Rlp.{Rlp, RlpLaws}
use enr.Crates.Hashing.{Keccak256}
use enr.Error.{EnrError, exceeds_max_size}
use enr.Keys.Traits.{Entropy, EnrKey}
use enr.Keys.Laws.{KeyLaws, IsUnambiguous}
use enr.Enr.Defs.{Enr, max_enr_size}
use enr.Enr.Encode.{size}
use enr.Enr.Getters.{get_raw_rlp}
use enr.Enr.Action.{◌>>=◌, >>=-ok, gets, raise, pure, call, try}
use enr.Enr.Sign.{commit}
use enr.Enr.Setters.{store, insert_raw_rlp}
use enr.Enr.Reserved.{check_spec_reserved_keys}
use enr.Enr.Revert.{unsigned, store_big, store_fits}
use enr.Enr.Commit.{IsCommitted, commit-IsCommitted}
use enr.Enr.Valid.{
  IsSound, IsSoundEntry, insert-IsSound, IsOwned, IsCommitted-IsOwned, public_key-IsSoundEntry,
}

module _ ⦃rlp : Rlp⦄ ⦃keccak : Keccak256⦄ {K P : Type 0} (keys : EnrKey K P) where
  -- How a successful insertion has ended.
  pub record IsStored (key value : Bytes) (k : K) (previous : Option Bytes) (e e' : Enr)
      : Type 0 where
    pub previous_lem : previous ≡ BtreeMap.get key e.content
    pub committed : IsCommitted keys k (unsigned keys key value k e) e'
    pub fits : size e' ≤ max_enr_size

  finished :
      (e e' : Enr) {previous previous' : Option Bytes}
      → (gets (λ e. ltb max_enr_size (size e)) >>= λ grown.
            if grown then raise exceeds_max_size else pure previous)
          e
        ≡ ret (ok previous', e')
      → (e' ≡ e) × (previous' ≡ previous) × (size e ≤ max_enr_size)
  finished e e' h = ground arith

  store-IsStored :
      (key value : Bytes) (k : K) (rng : Entropy) (e e' : Enr) {previous : Option Bytes}
      → IsSorted e.content
      → store keys key value k rng e ≡ ret (ok previous, e')
      → IsStored key value k previous e e'
  store-IsStored key value k rng e e' {previous} s h =
      elim (Bool-cases (ltb max_enr_size (size (unsigned keys key value k e)))) [
        | inl big ↦ absurd (cc (h, store_big keys key value k rng e s big))
        | inr fits ↦
            let chain = sym (store_fits keys key value k rng e fits) ∙ h in
            let (_, e₁, signed, rest) =
              >>=-ok (commit keys k rng) _ (unsigned keys key value k e) e' chain in
            by_end e₁ (commit-IsCommitted keys rng k (unsigned keys key value k e) e₁ signed)
              (finished e₁ e' rest)
      ]
    where
      by_end :
          (e₁ : Enr)
          → IsCommitted keys k (unsigned keys key value k e) e₁
          → (e' ≡ e₁) × (previous ≡ BtreeMap.get key e.content) × (size e₁ ≤ max_enr_size)
          → IsStored key value k previous e e'
      by_end e₁ c (same, returned, small) = record {
        previous_lem = returned;
        committed = rw same c;
        fits = rw same small;
      }

module _ ⦃rlp : Rlp⦄ ⦃keccak : Keccak256⦄ {K P S V : Type 0} (keys : EnrKey K P)
    (k256 : EnrKey S V) where
  pub insert_raw_rlp-IsStored :
      (key value : Bytes) (k : K) (rng : Entropy) (e e' : Enr) {previous : Option Bytes}
      → IsSorted e.content
      → insert_raw_rlp keys k256 key value k rng e ≡ ret (ok previous, e')
      → IsStored keys key value k previous e e'
  unfolding insert_raw_rlp
  insert_raw_rlp-IsStored key value k rng e e' {previous} s h =
      by_check (check_spec_reserved_keys k256 key value) h
    where
      by_check :
          (r : Panics (Result EnrError (Unit {0})))
          → (call r >>= λ checked. try checked >>= λ _. store keys key value k rng) e
            ≡ ret (ok previous, e')
          → IsStored keys key value k previous e e'
      by_check (ret (ok tt)) i = store-IsStored keys key value k rng e e' s i
      by_check (ret (err x)) i = absurd (ground arith)
      by_check panic i = absurd (ground arith)

  module _ (law : RlpLaws rlp) (key_law : KeyLaws keys) (own : IsUnambiguous keys) where
    -- The content that is signed is sound, and stores the signer's key.
    unsigned-IsSound :
        (key value : Bytes) (k : K) (e : Enr)
        → IsSoundEntry key value
        → IsSound e.content
        → IsSound (unsigned keys key value k e).content
    unsigned-IsSound key value k e entry s =
        let p = keys.public k in
        insert-IsSound (keys.enr_key p) _ _ (public_key-IsSoundEntry law keys key_law p)
          (insert-IsSound key value e.content entry s)

    -- A successful insertion of a sound value into a record with sound content leaves a valid record
    -- of at most 300 bytes that is the signer's, whatever signed it before. The key type keeps the
    -- promises of the traits and reads a stored key as that key.
    pub insert_raw_rlp-IsOwned :
        (key value : Bytes) (k : K) (rng : Entropy) (e e' : Enr) {previous : Option Bytes}
        → IsSound e.content
        → IsSoundEntry key value
        → insert_raw_rlp keys k256 key value k rng e ≡ ret (ok previous, e')
        → IsOwned keys k e' × (size e' ≤ max_enr_size)
    insert_raw_rlp-IsOwned key value k rng e e' s entry h =
        let stored = insert_raw_rlp-IsStored key value k rng e e' s.sorted h in
        (
          IsCommitted-IsOwned law keys key_law own k (unsigned keys key value k e) e'
              (unsigned-IsSound key value k e entry s)
              (get-insert_self (keys.enr_key (keys.public k)) _ _) stored.committed,
          stored.fits,
        )

  -- A successful insertion into a record whose keys ascend returns the previous value, counts the
  -- sequence number up by one, and changes what is read under two keys: under the name of the
  -- signer's public key that key is read, and otherwise under the key the value.
  pub insert_raw_rlp-get_raw_rlp :
      (key value : Bytes) (k : K) (rng : Entropy) (e e' : Enr) {previous : Option Bytes} (q : Bytes)
      → IsSorted e.content
      → insert_raw_rlp keys k256 key value k rng e ≡ ret (ok previous, e')
      → (previous ≡ get_raw_rlp e key)
        × (e'.seq ≡ e.seq + 1)
        × (get_raw_rlp e' q ≡ (
            if q == keys.enr_key (keys.public k)
            then some (rlp.encode_bytes (keys.encode (keys.public k)))
            else if q == key
            then some value
            else get_raw_rlp e q))
  unfolding get_raw_rlp
  insert_raw_rlp-get_raw_rlp key value k rng e e' q s h =
      let stored = insert_raw_rlp-IsStored key value k rng e e' s h in
      let c = stored.committed in
      (
        stored.previous_lem,
        c.next,
        rw c.same (
            get-insert q (keys.enr_key (keys.public k)) _ _
            ∙ rw (get-insert q key value e.content) refl),
      )
