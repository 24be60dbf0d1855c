-- ===== src/Enr/Removal/Update.antt =====
-- `remove_insert` that succeeds.
use enr.Prelude.{
  ◌+◌, ◌≤◌, ◌≡◌, ◌≢◌, refl, sym, ◌∙◌, List, [], ◌∷◌, All, Option, ok, ret, arith, ltb,
  if◌then◌else◌,
}
use enr.Bytes.{Bytes}
use enr.BtreeMap
use enr.BtreeMap.Laws.{remove-IsSorted, All-remove, get-insert_self, get-insert_ne}
use enr.Crates.Rlp.{Rlp, RlpLaws}
use enr.Crates.Hashing.{Keccak256}
use enr.Error.{exceeds_max_size}
use enr.Keys.Traits.{Content, Entropy, EnrKey}
use enr.Keys.Laws.{KeyLaws, IsUnambiguous}
use enr.Enr.Defs.{Enr, max_enr_size}
use enr.Enr.Encode.{size}
use enr.Enr.Action.{Action, ◌>>=◌, >>=-ok, >>=-of_ok, gets, pure, raise}
use enr.Enr.Sign.{commit}
use enr.Enr.RemoveInsert.{remove_all, insert_all, remove_insert, revert_to}
use enr.Enr.Revert.{with_content}
use enr.Enr.Commit.{IsCommitted, commit-IsCommitted}
use enr.Enr.Valid.{
  IsSound, Entry, insert-IsSound, IsCommitted-IsOwned, public_key-IsSoundEntry, IsOwned,
}
use enr.Enr.Removal.{removed, taken, inserted, replaced, remove_all_lem, insert_all-ok}

removed-IsSound :
    ⦃rlp : Rlp⦄ (keys : List Bytes) (content : Content)
    → IsSound content
    → IsSound (removed keys content)
removed-IsSound [] content s = s
removed-IsSound (key ∷ keys) content s =
    removed-IsSound keys (BtreeMap.remove key content) (record {
      sorted = remove-IsSorted key content s.sorted;
      entries = All-remove Entry key content s.entries;
    })

-- Insertions under other keys keep a value.
inserted_other :
    ⦃rlp : Rlp⦄ (q : Bytes) (kvs : List (Bytes × Bytes)) (content : Content)
    → All (λ kv. kv.0 ≢ q) kvs
    → BtreeMap.get q (inserted kvs content) ≡ BtreeMap.get q content
inserted_other q [] content other = refl
inserted_other q ((key, value) ∷ rest) content (ne, other) =
    inserted_other q rest _ other ∙ get-insert_ne key q _ content (λ i. ne (sym i))

module _ ⦃rlp : Rlp⦄ ⦃keccak : Keccak256⦄ {K P : Type 0} (keys : EnrKey K P) where
  -- The content once the keys are removed and the signer's public key is stored.
  abbrev pub prepared : List Bytes → K → Content → Content
  prepared remove_keys k content =
      let p = keys.public k in
      BtreeMap.insert (keys.enr_key p) (rlp.encode_bytes (keys.encode p))
        (removed remove_keys content)

  -- `remove_insert` after its first loop and the insertion of the public key
  abbrev pub insert_and_commit :
      Enr
      → List (Option Bytes)
      → List (Bytes × Bytes)
      → K
      → Entropy
      → Action (List (Option Bytes) × List (Option Bytes))
  insert_and_commit backup removals kvs k rng = insert_all backup kvs >>= λ inserted.
      commit keys k rng >>= λ _. gets (λ e. ltb max_enr_size (size e)) >>= λ grown.
      if grown
      then (revert_to backup >>= λ _. raise exceeds_max_size)
      else pure (removals, inserted)

  pub remove_insert_lem :
      (remove_keys : List Bytes) (kvs : List (Bytes × Bytes)) (k : K) (rng : Entropy) (e : Enr)
      → remove_insert keys remove_keys kvs k rng e
        ≡ insert_and_commit e
            (taken remove_keys e.content)
            kvs
            k
            rng
            (with_content (prepared remove_keys k e.content) e)
  unfolding remove_insert
  remove_insert_lem remove_keys kvs k rng e =
      >>=-of_ok (remove_all remove_keys) _ e (remove_all_lem remove_keys e)

  finished :
      (backup e e' : Enr) {A : Type 0} {previous previous' : A}
      → (gets (λ e. ltb max_enr_size (size e)) >>= λ grown.
            if grown then (revert_to backup >>= λ _. raise exceeds_max_size) else pure previous)
          e
        ≡ ret (ok previous', e')
      → (e' ≡ e) × (previous' ≡ previous) × (size e ≤ max_enr_size)
  finished backup e e' h = ground arith

  module _ (law : RlpLaws rlp) (key_law : KeyLaws keys) (own : IsUnambiguous keys) where
    -- What a success of `remove_insert` says of the record and the returned values.
    pub record IsReplaced (remove_keys : List Bytes) (kvs : List (Bytes × Bytes)) (k : K)
        (returned : List (Option Bytes) × List (Option Bytes)) (e e' : Enr) : Type 0 where
      pub previous :
          returned ≡ (taken remove_keys e.content, replaced kvs (prepared remove_keys k e.content))
      pub content_lem : e'.content ≡ inserted kvs (prepared remove_keys k e.content)
      pub committed :
          IsCommitted keys k (with_content (inserted kvs (prepared remove_keys k e.content)) e) e'
      pub sound : IsSound e'.content
      pub fits : size e' ≤ max_enr_size

    pub remove_insert-IsReplaced :
        (remove_keys : List Bytes) (kvs : List (Bytes × Bytes)) (k : K) (rng : Entropy) (e e' : Enr)
        {returned : List (Option Bytes) × List (Option Bytes)}
        → IsSound e.content
        → remove_insert keys remove_keys kvs k rng e ≡ ret (ok returned, e')
        → IsReplaced remove_keys kvs k returned e e'
    remove_insert-IsReplaced remove_keys kvs k rng e e' {returned} s h =
        let p = keys.public k in
        let start : Enr = with_content (prepared remove_keys k e.content) e in
        let start_sound =
          insert-IsSound (keys.enr_key p) (rlp.encode_bytes (keys.encode p)) _
            (public_key-IsSoundEntry law keys key_law p)
            (removed-IsSound remove_keys e.content s) in
        let chain = sym (remove_insert_lem remove_keys kvs k rng e) ∙ h in
        let (ps, e₁, others, h₁) = >>=-ok (insert_all e kvs) _ start e' chain in
        let (_, e₂, signed, h₂) = >>=-ok (commit keys k rng) _ e₁ e' h₁ in
        by_steps ps e₁ e₂ (insert_all-ok law e kvs start e₁ others start_sound)
          (commit-IsCommitted keys rng k e₁ e₂ signed) (finished e e₂ e' h₂)
      where
        by_steps :
            (ps : List (Option Bytes)) (e₁ e₂ : Enr)
            → (ps ≡ replaced kvs (prepared remove_keys k e.content))
              × (e₁ ≡ with_content (inserted kvs (prepared remove_keys k e.content)) e)
              × IsSound e₁.content
            → IsCommitted keys k e₁ e₂
            → (e' ≡ e₂) × (returned ≡ (taken remove_keys e.content, ps)) × (size e₂ ≤ max_enr_size)
            → IsReplaced remove_keys kvs k returned e e'
        by_steps ps e₁ e₂ (is_ps, is_e₁, s₁) c (is_e₂, is_returned, small) = record {
          previous = ground arith;
          content_lem = ground (arith, c.same);
          committed = rw (is_e₂, ← is_e₁) c;
          sound = rw (is_e₂, c.same) s₁;
          fits = rw is_e₂ small;
        }

    -- A success of `remove_insert` on a record with sound content, none of whose new values is under
    -- the name of the signer's public key, leaves a valid record of at most 300 bytes that is the
    -- signer's, with the next sequence number. The content is the old one without the removed keys
    -- and with the signer's public key and the new values; what was there before each step is
    -- returned. The key type keeps the promises of the traits and reads a stored key as that key.
    pub remove_insert-IsOwned :
        (remove_keys : List Bytes) (kvs : List (Bytes × Bytes)) (k : K) (rng : Entropy) (e e' : Enr)
        {returned : List (Option Bytes) × List (Option Bytes)}
        → IsSound e.content
        → All (λ kv. kv.0 ≢ keys.enr_key (keys.public k)) kvs
        → remove_insert keys remove_keys kvs k rng e ≡ ret (ok returned, e')
        → IsOwned keys k e'
          × (size e' ≤ max_enr_size)
          × (e'.seq ≡ e.seq + 1)
          × (e'.content ≡ inserted kvs (prepared remove_keys k e.content))
          × (returned
              ≡ (taken remove_keys e.content, replaced kvs (prepared remove_keys k e.content)))
    remove_insert-IsOwned remove_keys kvs k rng e e' s other h =
        let done = remove_insert-IsReplaced remove_keys kvs k rng e e' s h in
        let start = prepared remove_keys k e.content in
        let name = keys.enr_key (keys.public k) in
        (
          IsCommitted-IsOwned law keys key_law own k (with_content (inserted kvs start) e) e'
              (rw (← done.content_lem) done.sound)
              (inserted_other name kvs start other ∙ get-insert_self name _ _) done.committed,
          done.fits,
          done.committed.next,
          done.content_lem,
          done.previous,
        )
