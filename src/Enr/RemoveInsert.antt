-- ===== src/Enr/RemoveInsert.antt =====
-- `remove_insert`: removals and insertions in one update.
use enr.Prelude.{List, [], ◌∷◌, ◌&&◌, not, Option, ok, ltb, if◌then◌else◌}
use enr.Bytes.{Bytes, ◌==◌, id_key, v4}
use enr.Crates.Rlp.{Rlp}
use enr.Crates.Hashing.{Keccak256}
use enr.Error.{exceeds_max_size, unsupported_identity_scheme}
use enr.Keys.Traits.{Entropy, EnrKey}
use enr.Enr.Defs.{Enr, max_enr_size}
use enr.Enr.Encode.{size}
use enr.Enr.Decode.{is_keyof_u16}
use enr.Enr.Reserved.{check_port}
use enr.Enr.Action.{Action, ◌>>=◌, pure, raise, try, gets, modify, content_insert, content_remove}
use enr.Enr.Sign.{commit}

-- `for key in remove_keys`
unfoldable pub remove_all : List Bytes → Action (List (Option Bytes))
remove_all [] = pure []
remove_all (key ∷ keys) = do
  previous ← content_remove key
  removed ← remove_all keys
  pure (previous ∷ removed)

-- `*self = enr_backup`
abbrev pub revert_to : Enr → Action (Unit {0})
revert_to backup = modify (λ _. backup)

module _ ⦃rlp : Rlp⦄ where
  -- One round of the loop: a foreign scheme reverts the record, a bad port does not.
  unfoldable pub insert_one : Enr → Bytes → Bytes → Action (Option Bytes)
  insert_one enr_backup key value =
      if key == id_key && not (value == v4)
      then (do _ ← revert_to enr_backup; raise unsupported_identity_scheme)
      else (do
        _ ← try (if is_keyof_u16 key then check_port (rlp.encode_bytes value) else ok tt)
        content_insert key (rlp.encode_bytes value))

  -- `for (key, value) in insert_key_values`
  unfoldable pub insert_all : Enr → List (Bytes × Bytes) → Action (List (Option Bytes))
  unfolding insert_one
  insert_all enr_backup [] = pure []
  insert_all enr_backup ((key, value) ∷ rest) = do
    previous ← insert_one enr_backup key value
    inserted ← insert_all enr_backup rest
    pure (previous ∷ inserted)

  unfoldable pub remove_insert :
      ⦃keccak : Keccak256⦄
      → {K P : Type 0} → EnrKey K P
      → List Bytes
      → List (Bytes × Bytes)
      → K
      → Entropy
      → Action (List (Option Bytes) × List (Option Bytes))
  unfolding insert_all remove_all
  remove_insert keys remove_keys insert_key_values enr_key rng = do
    enr_backup ← gets (λ e. e)
    removed ← remove_all remove_keys
    let public_key = keys.public enr_key
    _ ← content_insert (keys.enr_key public_key) (rlp.encode_bytes (keys.encode public_key))
    inserted ← insert_all enr_backup insert_key_values
    _ ← commit keys enr_key rng
    grown ← gets (λ e. ltb max_enr_size (size e))
    if grown
        then (do _ ← revert_to enr_backup; raise exceeds_max_size)
        else pure (removed, inserted)
