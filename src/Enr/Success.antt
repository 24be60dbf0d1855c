-- ===== src/Enr/Success.antt =====
-- Insertions that succeed: when they do, and with which record.
use enr.Prelude.{◌+◌, ◌^◌, ◌<◌, ◌≡◌, refl, ◌∙◌, false, ok, ret, arith, ltb}
use enr.Bytes.{Bytes}
use enr.Crates.Rlp.{Rlp}
use enr.Crates.Hashing.{Keccak256}
use enr.NodeId.{of_public_key}
use enr.Keys.Traits.{Entropy, EnrKey}
use enr.Enr.Defs.{Enr, max_enr_size}
use enr.Enr.Encode.{size}
use enr.Enr.Getters.{get_raw_rlp}
use enr.Enr.Action.{>>=-of_ok}
use enr.Enr.Reserved.{check_spec_reserved_keys}
use enr.Enr.Sign.{compute_signature, commit}
use enr.Enr.Commit.Endings.{commit_signed}
use enr.Enr.Setters.{insert_raw_rlp}
use enr.Enr.Revert.{unsigned, stored_content, store_fits}

module _ ⦃rlp : Rlp⦄ ⦃keccak : Keccak256⦄ {K P S V : Type 0} (keys : EnrKey K P)
    (k256 : EnrKey S V) where
  -- An insertion that is accepted succeeds, if the record fits before it is signed and after, the
  -- sequence number can be counted up, a signature is made and the public key has an identifier. It
  -- returns the previous value, and leaves the record with the value, the signer's public key and
  -- identifier, the next sequence number and the signature.
  pub insert_raw_rlp_success :
      (key value : Bytes) (k : K) (rng : Entropy) (e e' : Enr)
      → check_spec_reserved_keys k256 key value ≡ ret (ok tt)
      → ltb max_enr_size (size (unsigned keys key value k e)) ≡ false
      → e.seq + 1 < 2 ^ 64
      → compute_signature keys rng k (record (unsigned keys key value k e) { seq = e.seq + 1 })
        ≡ ret (ok e'.signature)
      → of_public_key keys.public_key (keys.public k) ≡ ret e'.node_id
      → e'.seq ≡ e.seq + 1
      → e'.content ≡ stored_content keys key value k e.content
      → ltb max_enr_size (size e') ≡ false
      → insert_raw_rlp keys k256 key value k rng e ≡ ret (ok (get_raw_rlp e key), e')
  unfolding insert_raw_rlp get_raw_rlp
  insert_raw_rlp_success key value k rng e e' accepted fits more signed named counted same small =
      let finished : Enr = record {
        seq = e.seq + 1;
        node_id = e'.node_id;
        content = stored_content keys key value k e.content;
        signature = e'.signature;
      } in
      let is_e' : finished ≡ e' = ground (arith, counted, same) in
      rw accepted (
        store_fits keys key value k rng e fits
        ∙ >>=-of_ok {a = tt} {e₁ = finished} (commit keys k rng) _ (unsigned keys key value k e)
            (commit_signed keys rng k (unsigned keys key value k e) more signed named)
        ∙ rw is_e' (rw small refl))
