-- ===== src/Enr/Total/Updates.antt =====
-- Insertions, `set_seq` and `build` return, with a record or an error.
use enr.Prelude.{
  ◌+◌, ◌^◌, ◌≡◌, refl, Option, none, some, Bool, true, false, Bool-cases, inl, inr, Result, ok, err,
  Panics, ret, panic, arith, ltb, if◌then◌else◌,
}
use enr.Bytes.{Bytes, ◌==◌, v4, ip_key, ip6_key, id_key, secp256k1_key}
use enr.Crates.Rlp.{Rlp, RlpLaws, DecoderError}
use enr.Crates.Hashing.{Keccak256, KeccakLaws}
use enr.Error.{
  EnrError, invalid_rlp_data, signing_error, unsupported_identity_scheme, exceeds_max_size,
}
use enr.Keys.Traits.{Entropy, EnrKey}
use enr.Keys.Laws.{KeyLaws}
use enr.Enr.Defs.{Enr, max_enr_size}
use enr.Enr.Getters.{id}
use enr.Prelude.Fallible.{map_err}
use enr.Enr.Encode.{size, rlp_content}
use enr.Enr.Decode.{decode, is_keyof_u16}
use enr.Enr.Reserved.{check_spec_reserved_keys}
use enr.Enr.Action.{Action, ◌>>=◌, increment_seq, update_node_id, pure, raise, try}
use enr.Enr.Sign.{compute_signature, sign, commit}
use enr.Enr.Setters.{store, insert_raw_rlp}
use enr.Enr.Revert.{unsigned, store_big, store_fits}
use enr.Enr.Valid.{IsSound, IsSoundEntry, insert-IsSound, public_key-IsSoundEntry}
use enr.Enr.Total.{Returns, >>=-Returns, id_total, of_public_key_total, decode_total}

pub either :
    {A : Type 0} (b : Bool) (x y : Panics A) → Returns x → Returns y → Returns (if b then x else y)
either true x y r s = r
either false x y r s = s

-- A chain returns if its first step does, and what follows a success.
action-Returns :
    {A B : Type 0} (m : Action A) (f : A → Action B) (e : Enr)
    → Returns (m e)
    → ((a : A) (e₁ : Enr) → m e ≡ ret (ok a, e₁) → Returns (f a e₁))
    → Returns ((m >>= f) e)
action-Returns {B = B} m f e (r, h) next = by_result r h
  where
    by_result : (r : Result EnrError _ × Enr) → m e ≡ ret r → Returns ((m >>= f) e)
    by_result (ok a, e₁) i = let (b, j) = next a e₁ i in (b, rw (i, ◌>>=◌) j)
    by_result (err x, e₁) i =
        let b : Result EnrError B × Enr = (err x, e₁) in (b, rw (i, ◌>>=◌) refl)

module _ ⦃rlp : Rlp⦄ (law : RlpLaws rlp) ⦃keccak : Keccak256⦄ (keccak_law : KeccakLaws keccak)
    {K P : Type 0} (keys : EnrKey K P) (key_law : KeyLaws keys) where
  pub compute_signature_total :
      (rng : Entropy) (k : K) (e : Enr)
      → IsSound e.content
      → Returns (compute_signature keys rng k e)
  unfolding compute_signature
  compute_signature_total rng k e s = >>=-Returns (id e) _ (id_total law e s) by_scheme
    where
      by_scheme :
          (o : Option Bytes)
          → Returns (elim o [
            | some s ↦
                if s == v4
                then ret (map_err (λ _. signing_error) (keys.sign_v4 rng k (rlp_content e)))
                else ret (err unsupported_identity_scheme)
            | none ↦ ret (err unsupported_identity_scheme)
          ])
      by_scheme (some s) = either (s == v4) _ _ (_, refl) (_, refl)
      by_scheme none = (_, refl)

  sign_total : (rng : Entropy) (k : K) (e : Enr) → IsSound e.content → Returns (sign keys rng k e)
  unfolding sign
  sign_total rng k e s = >>=-Returns _ _ (compute_signature_total rng k e s) by_result
    where
      by_result :
          (r : Result EnrError Bytes)
          → Returns {A = Result EnrError Bytes × Enr} (elim r [
            | ok new_signature ↦ ret (ok e.signature, record e { signature = new_signature })
            | err x ↦ ret (err x, e)
          ])
      by_result (ok new_signature) = (_, refl)
      by_result (err x) = (_, refl)

  update_node_id_total : (k : K) (e : Enr) → Returns (update_node_id keys k e)
  update_node_id_total k e =
      let (n, named) = of_public_key_total law keccak_law keys key_law (keys.public k) in
      ((ok tt, record e { node_id = n }), rw named refl)

  increment_seq-content : (e e₁ : Enr) → increment_seq e ≡ ret (ok tt, e₁) → e₁.content ≡ e.content
  increment_seq-content e e₁ h = ground arith

  -- A record with sound content is signed, or the call returns an error.
  commit_total :
      (k : K) (rng : Entropy) (e : Enr) → IsSound e.content → Returns (commit keys k rng e)
  unfolding commit
  commit_total k rng e s =
      action-Returns increment_seq _ e (either (ltb (e.seq + 1) (2 ^ 64)) _ _ (_, refl) (_, refl))
        (λ _ e₁ counted.
          action-Returns (sign keys rng k) _ e₁
            (sign_total rng k e₁ (rw (increment_seq-content e e₁ counted) s))
            (λ _ e₂ signed. update_node_id_total k e₂))

  store_total :
      (key value : Bytes) (k : K) (rng : Entropy) (e : Enr)
      → IsSoundEntry key value
      → IsSound e.content
      → Returns (store keys key value k rng e)
  store_total key value k rng e entry s =
      let p = keys.public k in
      let unsigned_sound =
        insert-IsSound (keys.enr_key p) _ _ (public_key-IsSoundEntry law keys key_law p)
          (insert-IsSound key value e.content entry s) in
      elim (Bool-cases (ltb max_enr_size (size (unsigned keys key value k e)))) [
        | inl big ↦ (_, store_big keys key value k rng e s.sorted big)
        | inr fits ↦ rw (store_fits keys key value k rng e fits) (
            action-Returns (commit keys k rng) _ (unsigned keys key value k e)
              (commit_total k rng (unsigned keys key value k e) unsigned_sound)
              (λ _ e₁ _. by_size (ltb max_enr_size (size e₁)) _ e₁))
      ]
    where
      by_size :
          (grown : Bool) (previous : Option Bytes) (e₁ : Enr)
          → Returns ((if grown then raise exceeds_max_size else pure previous) e₁)
      by_size true previous e₁ = (_, refl)
      by_size false previous e₁ = (_, refl)

  module _ {S V : Type 0} (k256 : EnrKey S V) (k256_law : KeyLaws k256) where
    pub check_total : (key value : Bytes) → Returns (check_spec_reserved_keys k256 key value)
    unfolding check_spec_reserved_keys
    check_total key value =
        either (is_keyof_u16 key) _ _ (_, refl)
          (either (key == id_key) _ _ (_, refl)
            (either (key == ip_key) _ _ (_, refl)
              (either (key == ip6_key) _ _ (_, refl)
                (either (key == secp256k1_key) _ _ by_record (_, refl)))))
      where
        by_record : Returns {A = Result EnrError (Unit {0})} (elim (decode k256 value) [
          | ret (ok _) ↦ ret (ok tt)
          | ret (err e) ↦ ret (err (invalid_rlp_data (rlp.to_string e)))
          | panic ↦ panic
        ])
        by_record =
            let (r, read) = decode_total law keccak_law k256 k256_law value in rw read (by_result r)
          where
            by_result :
                (r : Result DecoderError Enr)
                → Returns {A = Result EnrError (Unit {0})} (elim r [
                  | ok _ ↦ ret (ok tt)
                  | err e ↦ ret (err (invalid_rlp_data (rlp.to_string e)))
                ])
            by_result (ok e) = (_, refl)
            by_result (err x) = (_, refl)

    -- An insertion of a sound value into a record with sound content does not panic: it returns the
    -- previous value or an error.
    pub insert_raw_rlp_total :
        (key value : Bytes) (k : K) (rng : Entropy) (e : Enr)
        → IsSoundEntry key value
        → IsSound e.content
        → Returns (insert_raw_rlp keys k256 key value k rng e)
    unfolding insert_raw_rlp
    insert_raw_rlp_total key value k rng e entry s =
        let (r, checked) = check_total key value in rw checked (by_check r)
      where
        by_check :
            (r : Result EnrError (Unit {0}))
            → Returns ((try r >>= λ _. store keys key value k rng) e)
        by_check (ok tt) = store_total key value k rng e entry s
        by_check (err x) = (_, refl)
