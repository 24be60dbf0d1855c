-- ===== src/Enr/Removal/Failures.antt =====
-- `remove_insert` that fails.
use enr.Prelude.{
  ◌≡◌, ◌≢◌, refl, sym, ap, ◌∙◌, List, ◌∷◌, Option, none, some, true, false, not, ◌&&◌, inl, inr,
  Bool-cases, Result, ok, err, Panics, ret, panic, arith, ltb, if◌then◌else◌,
}
use enr.Bytes.Laws.{compare_refl, eq_of_compare}
use enr.Bytes.{Bytes, compare_bytes, ◌==◌, id_key, v4}
use enr.Crates.Rlp.{Rlp}
use enr.Crates.Hashing.{Keccak256}
use enr.NodeId.{NodeId, of_public_key}
use enr.Error.{EnrError, exceeds_max_size, unsupported_identity_scheme}
use enr.Keys.Traits.{Entropy, EnrKey, SigningError}
use enr.Enr.Defs.{Enr, max_enr_size}
use enr.Enr.Getters.{id}
use enr.Enr.Encode.{size, rlp_content}
use enr.Enr.Decode.{is_keyof_u16}
use enr.Enr.Reserved.{check_port}
use enr.Enr.Action.{◌>>=◌, >>=-err, >>=-of_err, gets, pure, raise, increment_seq, update_node_id}
use enr.Enr.Sign.{compute_signature, sign, commit}
use enr.Enr.RemoveInsert.{insert_one, insert_all, remove_insert, revert_to}
use enr.Enr.Revert.{with_content}
use enr.Enr.Removal.{insert_all-err}
use enr.Enr.Removal.Update.{prepared, remove_insert_lem}

port-ne_id : (key : Bytes) → is_keyof_u16 key ≡ true → (key == id_key) ≡ false
port-ne_id key is_port = elim (Bool-cases (key == id_key)) [
  | inl same ↦
      let is_id : key ≡ id_key = ground (arith, eq_of_compare key id_key) in
      let other : is_keyof_u16 id_key ≡ false = unfold is_keyof_u16 compare_bytes in refl in
      absurd (cc (ap is_keyof_u16 is_id, other, is_port))
  | inr other ↦ other
]

module _ ⦃rlp : Rlp⦄ ⦃keccak : Keccak256⦄ {K P : Type 0} (keys : EnrKey K P) where
  compute_signature-err :
      (rng : Entropy) (k : K) (e : Enr)
      → compute_signature keys rng k e ≢ ret (err exceeds_max_size)
  unfolding compute_signature
  compute_signature-err rng k e h = by_scheme (id e) refl (keys.sign_v4 rng k (rlp_content e)) refl
    where
      by_scheme :
          (o : Panics (Option Bytes))
          → id e ≡ o
          → (r : Result SigningError Bytes) → keys.sign_v4 rng k (rlp_content e) ≡ r
          → ⊥
      by_scheme (ret (some s)) i (ok b) j = ground arith
      by_scheme (ret (some s)) i (err x) j = ground arith
      by_scheme (ret none) i r j = ground arith
      by_scheme panic i r j = ground arith

  sign-size :
      (rng : Entropy) (k : K) (e e' : Enr) → sign keys rng k e ≢ ret (err exceeds_max_size, e')
  unfolding sign
  sign-size rng k e e' h = by_result (compute_signature keys rng k e) refl
    where
      by_result : (r : Panics (Result EnrError Bytes)) → compute_signature keys rng k e ≡ r → ⊥
      by_result (ret (ok sig)) i = ground arith
      by_result (ret (err x)) i = ground (arith, compute_signature-err rng k e)
      by_result panic i = ground arith

  update_node_id-size :
      (k : K) (e e' : Enr) → update_node_id keys k e ≢ ret (err exceeds_max_size, e')
  update_node_id-size k e e' h = by_name (of_public_key keys.public_key (keys.public k)) refl
    where
      by_name : (r : Panics NodeId) → of_public_key keys.public_key (keys.public k) ≡ r → ⊥
      by_name (ret n) i = ground arith
      by_name panic i = ground arith

  -- Nothing in a signed update fails for the size.
  commit-err :
      (k : K) (rng : Entropy) (e e' : Enr) → commit keys k rng e ≢ ret (err exceeds_max_size, e')
  unfolding commit
  commit-err k rng e e' h = elim (>>=-err increment_seq _ e e' h) [
    | inl failed ↦ ground arith
    | inr (_, e₁, _, h₁) ↦ elim (>>=-err (sign keys rng k) _ e₁ e' h₁) [
      | inl failed ↦ sign-size rng k e₁ e' failed
      | inr (_, e₂, _, h₂) ↦ update_node_id-size k e₂ e' h₂
    ]
  ]

  grown :
      (backup e e' : Enr) {A : Type 0} (a : A)
      → (gets (λ e. ltb max_enr_size (size e)) >>= λ grown.
            if grown then (revert_to backup >>= λ _. raise exceeds_max_size) else pure a)
          e
        ≡ ret (err exceeds_max_size, e')
      → e' ≡ backup
  grown backup e e' a h = ground arith

  -- A call of `remove_insert` that fails for the size leaves the record as it was.
  pub remove_insert_too_big :
      (remove_keys : List Bytes) (kvs : List (Bytes × Bytes)) (k : K) (rng : Entropy) (e e' : Enr)
      → remove_insert keys remove_keys kvs k rng e ≡ ret (err exceeds_max_size, e')
      → e' ≡ e
  remove_insert_too_big remove_keys kvs k rng e e' h =
      let start : Enr = with_content (prepared keys remove_keys k e.content) e in
      let chain = sym (remove_insert_lem keys remove_keys kvs k rng e) ∙ h in
      elim (>>=-err (insert_all e kvs) _ start e' chain) [
        | inl failed ↦ absurd (insert_all-err e kvs start e' failed)
        | inr (ps, e₁, _, h₁) ↦ elim (>>=-err (commit keys k rng) _ e₁ e' h₁) [
          | inl failed ↦ absurd (commit-err k rng e₁ e' failed)
          | inr (_, e₂, _, h₂) ↦ grown e e₂ e' _ h₂
        ]
      ]

  first_err :
      (key value : Bytes) (rest : List (Bytes × Bytes)) (remove_keys : List Bytes) (k : K)
      (rng : Entropy) (e e' : Enr) {x : EnrError}
      → insert_one e key value (with_content (prepared keys remove_keys k e.content) e)
        ≡ ret (err x, e')
      → remove_insert keys remove_keys ((key, value) ∷ rest) k rng e ≡ ret (err x, e')
  unfolding insert_all
  first_err key value rest remove_keys k rng e e' h =
      let start : Enr = with_content (prepared keys remove_keys k e.content) e in
      remove_insert_lem keys remove_keys ((key, value) ∷ rest) k rng e
      ∙ >>=-of_err (insert_all e ((key, value) ∷ rest)) _ start
          (>>=-of_err (insert_one e key value) _ start h)

  -- Where the first new value would set another identity scheme, `remove_insert` fails and leaves
  -- the record as it was.
  pub remove_insert_foreign :
      (value : Bytes) (rest : List (Bytes × Bytes)) (remove_keys : List Bytes) (k : K)
      (rng : Entropy) (e : Enr)
      → value ≢ v4
      → remove_insert keys remove_keys ((id_key, value) ∷ rest) k rng e
        ≡ ret (err unsupported_identity_scheme, e)
  unfolding insert_one
  remove_insert_foreign value rest remove_keys k rng e ne =
      let foreign : (id_key == id_key && not (value == v4)) ≡ true =
        ground (arith, compare_refl id_key, eq_of_compare value v4) in
      first_err id_key value rest remove_keys k rng e e (rw foreign refl)

  -- Where the first new value is under a port's key and is no number of 16 bits, `remove_insert`
  -- fails and does not restore the record: the keys stay removed and the signer's public key stays
  -- in it.
  pub remove_insert_bad_port :
      (key value : Bytes) (rest : List (Bytes × Bytes)) (remove_keys : List Bytes) (k : K)
      (rng : Entropy) (e : Enr) {x : EnrError}
      → is_keyof_u16 key ≡ true
      → check_port (rlp.encode_bytes value) ≡ err x
      → remove_insert keys remove_keys ((key, value) ∷ rest) k rng e
        ≡ ret (err x, with_content (prepared keys remove_keys k e.content) e)
  unfolding insert_one
  remove_insert_bad_port key value rest remove_keys k rng e is_port bad =
      let same_scheme = port-ne_id key is_port in
      first_err key value rest remove_keys k rng e _ (rw (same_scheme, is_port, bad) refl)
