-- ===== src/Enr/Outcome.antt =====
-- The updates of src/lib.rs as one decision after the other: when each ends, with which result, and
-- which record it leaves. Nothing here is undone, since nothing is done before it is decided.
use enr.Prelude.{
  ℕ, ◌+◌, ◌^◌, List, [], ◌∷◌, Bool, ◌&&◌, not, Option, Result, ok, err, Panics, ret, panic, ltb,
  if◌then◌else◌,
}
use enr.Bytes.{Bytes, ◌==◌, id_key, v4}
use enr.BtreeMap
use enr.Crates.Rlp.{Rlp}
use enr.Crates.Hashing.{Keccak256}
use enr.Error.{EnrError, exceeds_max_size, sequence_number_too_high, unsupported_identity_scheme}
use enr.NodeId.{of_public_key}
use enr.Keys.Traits.{Content, Entropy, EnrKey}
use enr.Enr.Defs.{Enr, SocketAddr, max_enr_size}
use enr.Enr.Encode.{size}
use enr.Enr.Decode.{is_keyof_u16}
use enr.Enr.Reserved.{check_port, check_spec_reserved_keys}
use enr.Enr.Sign.{compute_signature}
use enr.Enr.Socket.{entries}
use enr.Enr.Revert.{with_content, unsigned}
use enr.Enr.SocketUpdate.{with_entries}
use enr.Enr.Removal.{taken, replaced}
use enr.Enr.Removal.Update.{prepared}

abbrev pub Ending : Type 0 → Type 0
Ending A = Panics (Result EnrError A × Enr)

module _ ⦃rlp : Rlp⦄ ⦃keccak : Keccak256⦄ {K P : Type 0} (keys : EnrKey K P) where
  -- How a record is signed: at the largest sequence number nothing happens to it, and where no
  -- signature is made it is counted up all the same. `finish` says what is done with a signed record.
  abbrev pub sign_outcome : {A : Type 0} → (Enr → Ending A) → K → Entropy → Enr → Ending A
  sign_outcome finish k rng e =
      let counted = record e { seq = e.seq + 1 } in
      if ltb (e.seq + 1) (2 ^ 64)
      then elim (compute_signature keys rng k counted) [
        | panic ↦ panic
        | ret (err x) ↦ ret (err x, counted)
        | ret (ok sig) ↦ elim (of_public_key keys.public_key (keys.public k)) [
          | panic ↦ panic
          | ret n ↦ finish (record counted { signature = sig; node_id = n })
        ]
      ]
      else ret (err sequence_number_too_high, e)

  -- The record is returned if it has at most 300 bytes; a larger one leaves `otherwise` of it.
  abbrev pub sized : {A : Type 0} → A → (Enr → Enr) → Enr → Ending A
  sized a otherwise e =
      if ltb max_enr_size (size e) then ret (err exceeds_max_size, otherwise e) else ret (ok a, e)

  unfoldable pub insert_outcome :
      {S V : Type 0} → EnrKey S V → Bytes → Bytes → K → Entropy → Enr → Ending (Option Bytes)
  insert_outcome k256 key value k rng e = elim (check_spec_reserved_keys k256 key value) [
    | panic ↦ panic
    | ret (err x) ↦ ret (err x, e)
    | ret (ok tt) ↦
        if ltb max_enr_size (size (unsigned keys key value k e))
        then ret (err exceeds_max_size, e)
        else sign_outcome (sized (BtreeMap.get key e.content) (λ signed. signed)) k rng
            (unsigned keys key value k e)
  ]

  unfoldable pub socket_outcome : SocketAddr → K → Bool → Entropy → Enr → Ending (Unit {0})
  socket_outcome socket k is_tcp rng e =
      let filled = with_entries keys (entries socket is_tcp) k e in
      if ltb max_enr_size (size filled)
      then ret (err exceeds_max_size, e)
      else sign_outcome (λ signed. ret (ok tt, signed)) k rng filled

  -- A call of `set_seq` leaves the old record, or succeeds.
  unfoldable pub seq_outcome : ℕ → K → Entropy → Enr → Ending (Unit {0})
  seq_outcome seq k rng e =
      let renumbered = record e { seq = seq } in
      elim (compute_signature keys rng k renumbered) [
        | panic ↦ panic
        | ret (err x) ↦ ret (err x, e)
        | ret (ok sig) ↦
            if ltb max_enr_size (size (record renumbered { signature = sig }))
            then ret (err exceeds_max_size, e)
            else elim (of_public_key keys.public_key (keys.public k)) [
              | panic ↦ panic
              | ret n ↦ ret (ok tt, record renumbered { signature = sig; node_id = n })
            ]
      ]

-- How far the values of `remove_insert` get into a content.
pub data Placed : Type 0 where
  placed : Content → Placed
  foreign_scheme : Placed
  bad_port : EnrError → Content → Placed

module _ ⦃rlp : Rlp⦄ where
  unfoldable pub place : List (Bytes × Bytes) → Content → Placed
  place [] content = placed content
  place ((key, value) ∷ rest) content =
      let later = place rest (BtreeMap.insert key (rlp.encode_bytes value) content) in
      if key == id_key && not (value == v4)
      then foreign_scheme
      else if is_keyof_u16 key
      then elim (check_port (rlp.encode_bytes value)) [ ok tt ↦ later | err x ↦ bad_port x content ]
      else later

  -- A foreign identity scheme and a record that is too large leave the old record; a bad port leaves
  -- the values before it.
  unfoldable pub remove_insert_outcome :
      ⦃keccak : Keccak256⦄
      → {K P : Type 0} → EnrKey K P
      → List Bytes
      → List (Bytes × Bytes)
      → K
      → Entropy
      → Enr
      → Ending (List (Option Bytes) × List (Option Bytes))
  remove_insert_outcome keys remove_keys kvs k rng e =
      let start = prepared keys remove_keys k e.content in
      elim (place kvs start) [
        | foreign_scheme ↦ ret (err unsupported_identity_scheme, e)
        | bad_port x content ↦ ret (err x, with_content content e)
        | placed content ↦
            sign_outcome keys
              (sized keys (taken remove_keys e.content, replaced kvs start) (λ _. e)) k rng
              (with_content content e)
      ]
