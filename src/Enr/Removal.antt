-- ===== src/Enr/Removal.antt =====
-- `remove_insert`, step by step: what its two loops do to the content.
pub mod Failures
pub mod Update
use enr.Prelude.{
  ℕ, subst, ◌≡◌, ◌≢◌, refl, List, [], ◌∷◌, ◌&&◌, not, Bool, true, false, Bool-cases, inl, inr,
  Option, Result, ok, err, Panics, ret, panic, arith, if◌then◌else◌,
}
use enr.Bytes.{Bytes, ◌==◌, id_key, v4}
use enr.BtreeMap
use enr.Crates.Rlp.{Rlp, RlpLaws, DecoderError}
use enr.Error.{EnrError, exceeds_max_size}
use enr.Keys.Traits.{Content}
use enr.Enr.Defs.{Enr}
use enr.Enr.Decode.{is_keyof_u16, sanitize}
use enr.Enr.Reserved.{check_port}
use enr.Enr.Action.{
  Action, ◌>>=◌, >>=-ok, >>=-err, >>=-of_ok, >>=-of_err, try, content_insert, pure,
}
use enr.Enr.RemoveInsert.{remove_all, insert_one, insert_all}
use enr.Enr.Revert.{with_content}
use enr.Enr.Valid.{IsSound, IsSoundEntry, insert-IsSound, encode_bytes-IsSoundEntry}

-- The content without some keys, and the values that were there.
abbrev pub removed : List Bytes → Content → Content
removed [] content = content
removed (key ∷ keys) content = removed keys (BtreeMap.remove key content)

abbrev pub taken : List Bytes → Content → List (Option Bytes)
taken [] content = []
taken (key ∷ keys) content = BtreeMap.get key content ∷ taken keys (BtreeMap.remove key content)

pub remove_all_lem :
    (keys : List Bytes) (e : Enr)
    → remove_all keys e ≡ ret (ok (taken keys e.content), with_content (removed keys e.content) e)
unfolding remove_all
remove_all_lem [] e = refl
remove_all_lem (key ∷ keys) e =
    ground (arith, remove_all_lem keys (with_content (BtreeMap.remove key e.content) e))

module _ ⦃rlp : Rlp⦄ where
  -- The content with some values, and the values that were there.
  abbrev pub inserted : List (Bytes × Bytes) → Content → Content
  inserted [] content = content
  inserted ((key, value) ∷ rest) content =
      inserted rest (BtreeMap.insert key (rlp.encode_bytes value) content)

  abbrev pub replaced : List (Bytes × Bytes) → Content → List (Option Bytes)
  replaced [] content = []
  replaced ((key, value) ∷ rest) content =
      BtreeMap.get key content
      ∷ replaced rest (BtreeMap.insert key (rlp.encode_bytes value) content)

  module _ (law : RlpLaws rlp) where
    -- A round that goes on stores a sound value.
    insert_one-ok :
        (backup : Enr) (key value : Bytes) (e e' : Enr) {previous : Option Bytes}
        → insert_one backup key value e ≡ ret (ok previous, e')
        → (previous ≡ BtreeMap.get key e.content)
          × (e' ≡ with_content (BtreeMap.insert key (rlp.encode_bytes value) e.content) e)
          × IsSoundEntry key (rlp.encode_bytes value)
    unfolding insert_one sanitize check_port
    insert_one-ok backup key value e e' {previous} h =
        by_tests (key == id_key && not (value == v4)) refl (is_keyof_u16 key) refl
          (rlp.decode_u16 (rlp.encode_bytes value)) refl
      where
        by_tests :
            (foreign : Bool)
            → (key == id_key && not (value == v4)) ≡ foreign
            → (is_port : Bool) → is_keyof_u16 key ≡ is_port
            → (r : Result DecoderError ℕ) → rlp.decode_u16 (rlp.encode_bytes value) ≡ r
            → (previous ≡ BtreeMap.get key e.content)
              × (e' ≡ with_content (BtreeMap.insert key (rlp.encode_bytes value) e.content) e)
              × IsSoundEntry key (rlp.encode_bytes value)
        by_tests true f is_port i r j = absurd (ground arith)
        by_tests false f true i (ok n) j = (
          ground arith,
          ground arith,
          record { sanitized = ground arith; item = law.encode_bytes-IsItem value },
        )
        by_tests false f true i (err x) j = absurd (ground arith)
        by_tests false f false i r j =
            (ground arith, ground arith, encode_bytes-IsSoundEntry law key value i)

    -- Insertions that all go on.
    pub insert_all-ok :
        (backup : Enr) (kvs : List (Bytes × Bytes)) (e e' : Enr) {previous : List (Option Bytes)}
        → insert_all backup kvs e ≡ ret (ok previous, e')
        → IsSound e.content
        → (previous ≡ replaced kvs e.content)
          × (e' ≡ with_content (inserted kvs e.content) e)
          × IsSound e'.content
    unfolding insert_all
    insert_all-ok backup [] e e' h s =
        (ground arith, ground arith, let same : e' ≡ e = ground arith in rw same s)
    insert_all-ok backup ((key, value) ∷ rest) e e' {previous} h s =
        let (p, e₁, first, h₁) = >>=-ok (insert_one backup key value) _ e e' h in
        let (ps, e₂, others, last) = >>=-ok (insert_all backup rest) _ e₁ e' h₁ in
        by_rest p ps e₁ e₂ (insert_one-ok backup key value e e₁ first)
          (λ s₁. insert_all-ok backup rest e₁ e₂ others s₁) last
      where
        by_rest :
            (p : Option Bytes) (ps : List (Option Bytes)) (e₁ e₂ : Enr)
            → (p ≡ BtreeMap.get key e.content)
              × (e₁ ≡ with_content (BtreeMap.insert key (rlp.encode_bytes value) e.content) e)
              × IsSoundEntry key (rlp.encode_bytes value)
            → (IsSound e₁.content
                → (ps ≡ replaced rest e₁.content)
                  × (e₂ ≡ with_content (inserted rest e₁.content) e₁)
                  × IsSound e₂.content)
            → pure (p ∷ ps) e₂ ≡ ret (ok previous, e')
            → (previous ≡ replaced ((key, value) ∷ rest) e.content)
              × (e' ≡ with_content (inserted ((key, value) ∷ rest) e.content) e)
              × IsSound e'.content
        by_rest p ps e₁ e₂ (is_p, is_e₁, entry) rest_lem last =
            let s₁ = insert-IsSound key (rlp.encode_bytes value) e.content entry s in
            let (is_ps, is_e₂, s₂) = rest_lem (rw is_e₁ s₁) in
            (
              ground (arith, is_ps),
              ground (arith, is_e₂),
              let same : e' ≡ e₂ = ground arith in rw same s₂,
            )

  -- No round fails for the size.
  insert_one-err :
      (backup : Enr) (key value : Bytes) (e e' : Enr)
      → insert_one backup key value e ≢ ret (err exceeds_max_size, e')
  unfolding insert_one check_port
  insert_one-err backup key value e e' h =
      by_tests (key == id_key && not (value == v4)) refl (is_keyof_u16 key) refl
        (rlp.decode_u16 (rlp.encode_bytes value)) refl
    where
      by_tests :
          (foreign : Bool)
          → (key == id_key && not (value == v4)) ≡ foreign
          → (is_port : Bool) → is_keyof_u16 key ≡ is_port
          → (r : Result DecoderError ℕ) → rlp.decode_u16 (rlp.encode_bytes value) ≡ r
          → ⊥
      by_tests true f is_port i r j = ground arith
      by_tests false f true i (ok n) j = ground arith
      by_tests false f true i (err x) j = ground arith
      by_tests false f false i r j = ground arith

  pub insert_all-err :
      (backup : Enr) (kvs : List (Bytes × Bytes)) (e e' : Enr)
      → insert_all backup kvs e ≢ ret (err exceeds_max_size, e')
  unfolding insert_all
  insert_all-err backup [] e e' h = ground arith
  insert_all-err backup ((key, value) ∷ rest) e e' h =
      elim (>>=-err (insert_one backup key value) _ e e' h) [
        | inl failed ↦ insert_one-err backup key value e e' failed
        | inr (p, e₁, _, h₁) ↦ elim (>>=-err (insert_all backup rest) _ e₁ e' h₁) [
          | inl failed ↦ insert_all-err backup rest e₁ e' failed
          | inr (ps, e₂, _, h₂) ↦ ground arith
        ]
      ]
