-- ===== src/Enr/Commit/Endings.antt =====
-- How the three steps that end every update can end.
use enr.Prelude.{◌∙◌, ◌≤◌, ◌+◌, ◌^◌, ◌<◌, ◌≡◌, ◌⊎◌, inl, inr, refl, ok, err, ret, panic, arith}
use enr.Bytes.{Bytes}
use enr.Crates.Rlp.{Rlp}
use enr.Crates.Hashing.{Keccak256}
use enr.NodeId.{NodeId, of_public_key}
use enr.Error.{EnrError, sequence_number_too_high}
use enr.Keys.Traits.{Entropy, EnrKey}
use enr.Enr.Defs.{Enr}
use enr.Enr.Action.{increment_seq, >>=-of_ok, >>=-of_err, >>=-of_panic}
use enr.Enr.Sign.{compute_signature, sign, commit}

module _ ⦃rlp : Rlp⦄ {K P : Type 0} (keys : EnrKey K P) where
  -- At the largest sequence number nothing is signed.
  pub commit_exhausted :
      ⦃keccak : Keccak256⦄
      → (rng : Entropy) (k : K) (e : Enr) → 2 ^ 64 ≤ e.seq + 1
      → commit keys k rng e ≡ ret (err sequence_number_too_high, e)
  unfolding commit
  commit_exhausted rng k e full = >>=-of_err increment_seq _ e (ground arith)

  -- Where no signature can be made, the sequence number has been counted up already.
  pub commit_unsigned :
      ⦃keccak : Keccak256⦄
      → (rng : Entropy) (k : K) (e : Enr) {x : EnrError} → e.seq + 1 < 2 ^ 64
      → compute_signature keys rng k (record e { seq = e.seq + 1 }) ≡ ret (err x)
      → commit keys k rng e ≡ ret (err x, record e { seq = e.seq + 1 })
  unfolding commit sign
  commit_unsigned rng k e more failed =
      let counted : Enr = record e { seq = e.seq + 1 } in
      >>=-of_ok {a = tt} {e₁ = counted} increment_seq _ e (ground arith)
      ∙ >>=-of_err (sign keys rng k) _ counted (ground arith)

  -- A signature that is made ends a success.
  pub commit_signed :
      ⦃keccak : Keccak256⦄
      → (rng : Entropy) (k : K) (e : Enr) {sig : Bytes} {n : NodeId} → e.seq + 1 < 2 ^ 64
      → compute_signature keys rng k (record e { seq = e.seq + 1 }) ≡ ret (ok sig)
      → of_public_key keys.public_key (keys.public k) ≡ ret n
      → commit keys k rng e
        ≡ ret (ok tt, record e { seq = e.seq + 1; node_id = n; signature = sig })
  unfolding commit sign
  commit_signed rng k e {sig} {n} more signed named =
      let counted : Enr = record e { seq = e.seq + 1 } in
      let resigned : Enr = record counted { signature = sig } in
      >>=-of_ok {a = tt} {e₁ = counted} increment_seq _ e (ground arith)
      ∙ >>=-of_ok {a = e.signature} {e₁ = resigned} (sign keys rng k) _ counted
          (ground (arith, signed))
      ∙ rw named refl

  -- A panic of either call is that of the whole.
  pub commit_panics :
      ⦃keccak : Keccak256⦄
      → (rng : Entropy) (k : K) (e : Enr) → e.seq + 1 < 2 ^ 64
      → (compute_signature keys rng k (record e { seq = e.seq + 1 }) ≡ panic)
        ⊎ ((sig : Bytes) × (compute_signature keys rng k (record e { seq = e.seq + 1 })
              ≡ ret (ok sig))
            × (of_public_key keys.public_key (keys.public k) ≡ panic))
      → commit keys k rng e ≡ panic
  unfolding commit sign
  commit_panics rng k e more (inl unsigned) =
      >>=-of_ok {a = tt} {e₁ = record e { seq = e.seq + 1 }} increment_seq _ e (ground arith)
      ∙ >>=-of_panic (sign keys rng k) _ (record e { seq = e.seq + 1 }) (ground (arith, unsigned))
  commit_panics rng k e more (inr (sig, signed, unnamed)) =
      let counted : Enr = record e { seq = e.seq + 1 } in
      >>=-of_ok {a = tt} {e₁ = counted} increment_seq _ e (ground arith)
      ∙ >>=-of_ok {a = e.signature} {e₁ = record counted { signature = sig }} (sign keys rng k) _
          counted (ground (arith, signed))
      ∙ rw unnamed refl
