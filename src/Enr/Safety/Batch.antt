-- ===== src/Enr/Safety/Batch.antt =====
-- `remove_insert` with its two loops.
use enr.Prelude.{
  ℕ, ◌≡◌, refl, List, [], ◌∷◌, Bool, true, false, not, ◌&&◌, Result, ok, err, arith, ltb,
  if◌then◌else◌,
}
use enr.Bytes.{Bytes, ◌==◌, id_key, v4}
use enr.Crates.Rlp.{Rlp, RlpLaws, DecoderError}
use enr.Crates.Hashing.{Keccak256, KeccakLaws}
use enr.Error.{EnrError, exceeds_max_size, unsupported_identity_scheme}
use enr.Keys.Traits.{Entropy, EnrKey}
use enr.Keys.Laws.{KeyLaws}
use enr.Enr.Defs.{Enr, max_enr_size}
use enr.Enr.Encode.{size}
use enr.Enr.Decode.{is_keyof_u16, sanitize}
use enr.Enr.Reserved.{check_port}
use enr.Enr.Action.{◌>>=◌, try, gets, content_insert, content_remove}
use enr.Enr.Sign.{commit}
use enr.Enr.RemoveInsert.{remove_all, insert_one, insert_all, remove_insert}
use enr.Enr.Valid.{IsSoundEntry, encode_bytes-IsSoundEntry, public_key-IsSoundEntry}
use enr.Enr.Safety.{
  IsSafe, Keeps, Anything, Keeps-pure, Keeps-raise, Keeps-if, Keeps-Anything, Keeps-then,
}
use enr.Enr.Safety.Steps.{Keeps-gets, Keeps-content_insert, Keeps-content_remove, Keeps-commit}

module _ ⦃rlp : Rlp⦄ (law : RlpLaws rlp) where
  Keeps-remove_all : (keys : List Bytes) → Keeps Anything (remove_all keys)
  unfolding remove_all
  Keeps-remove_all [] = Keeps-pure [] tt
  Keeps-remove_all (key ∷ keys) =
      Keeps-then (content_remove key) _ (Keeps-content_remove key) (λ previous _.
        Keeps-then (remove_all keys) _ (Keeps-remove_all keys)
          (λ removed _. Keeps-pure (previous ∷ removed) tt))

  -- A value that the check of the ports lets through may be stored.
  check_port-IsSoundEntry :
      (key value : Bytes)
      → (if is_keyof_u16 key then check_port (rlp.encode_bytes value) else ok tt) ≡ ok tt
      → IsSoundEntry key (rlp.encode_bytes value)
  unfolding check_port sanitize
  check_port-IsSoundEntry key value h =
      by_tests (is_keyof_u16 key) refl (rlp.decode_u16 (rlp.encode_bytes value)) refl
    where
      by_tests :
          (is_port : Bool)
          → is_keyof_u16 key ≡ is_port
          → (r : Result DecoderError ℕ) → rlp.decode_u16 (rlp.encode_bytes value) ≡ r
          → IsSoundEntry key (rlp.encode_bytes value)
      by_tests true i (ok n) j = record {
        sanitized = ground arith;
        item = law.encode_bytes-IsItem value;
      }
      by_tests true i (err x) j = absurd (ground arith)
      by_tests false i r j = encode_bytes-IsSoundEntry law key value i

  Keeps-insert_one :
      (backup : Enr) (key value : Bytes)
      → IsSafe backup
      → Keeps Anything (insert_one backup key value)
  unfolding insert_one
  Keeps-insert_one backup key value b =
      Keeps-if (key == id_key && not (value == v4)) _ _
        (λ _ _. record {
          result = err unsupported_identity_scheme;
          left = backup;
          returned = refl;
          safe = b;
          post = tt;
        })
        (by_check (if is_keyof_u16 key then check_port (rlp.encode_bytes value) else ok tt) refl)
    where
      by_check :
          (r : Result EnrError (Unit {0}))
          → (if is_keyof_u16 key then check_port (rlp.encode_bytes value) else ok tt) ≡ r
          → Keeps Anything (try r >>= λ _. content_insert key (rlp.encode_bytes value))
      by_check (ok tt) h =
          Keeps-Anything (content_insert key (rlp.encode_bytes value)) (
            Keeps-content_insert key (rlp.encode_bytes value) (check_port-IsSoundEntry key value h))
      by_check (err x) h = Keeps-raise x

  Keeps-insert_all :
      (backup : Enr) (kvs : List (Bytes × Bytes))
      → IsSafe backup
      → Keeps Anything (insert_all backup kvs)
  unfolding insert_all
  Keeps-insert_all backup [] b = Keeps-pure [] tt
  Keeps-insert_all backup ((key, value) ∷ rest) b =
      Keeps-then (insert_one backup key value) _ (Keeps-insert_one backup key value b)
        (λ previous _.
          Keeps-then (insert_all backup rest) _ (Keeps-insert_all backup rest b)
            (λ inserted _. Keeps-pure (previous ∷ inserted) tt))

  module _ ⦃keccak : Keccak256⦄ (keccak_law : KeccakLaws keccak) {K P : Type 0} (keys : EnrKey K P)
      (key_law : KeyLaws keys) where
    pub Keeps-remove_insert :
        (remove_keys : List Bytes) (kvs : List (Bytes × Bytes)) (k : K) (rng : Entropy)
        → Keeps Anything (remove_insert keys remove_keys kvs k rng)
    unfolding remove_insert
    Keeps-remove_insert remove_keys kvs k rng e s =
        Keeps-then (remove_all remove_keys) _ (Keeps-remove_all remove_keys)
          (λ removed _.
            let p = keys.public k in
            Keeps-then (content_insert (keys.enr_key p) _) _
              (Keeps-content_insert (keys.enr_key p) _ (public_key-IsSoundEntry law keys key_law p))
              (λ _ _. Keeps-then (insert_all e kvs) _ (Keeps-insert_all e kvs s) (λ inserted _.
                Keeps-then (commit keys k rng) _ (Keeps-commit law keccak_law keys key_law k rng)
                  (λ _ _.
                    Keeps-then (gets (λ e. ltb max_enr_size (size e))) _ (Keeps-gets _) (λ grown _.
                      Keeps-if grown _ _
                        (λ _ _. record {
                          result = err exceeds_max_size;
                          left = e;
                          returned = refl;
                          safe = s;
                          post = tt;
                        })
                        (Keeps-pure (removed, inserted) tt))))))
          e s
