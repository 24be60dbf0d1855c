-- ===== src/Enr/Sign.antt =====
-- Signing, and `set_seq`. `rng` is what a signature draws from the generator.
use enr.Prelude.{ℕ, none, some, Result, ok, err, Panics, ret, ltb, if◌then◌else◌}
use enr.Prelude.Fallible.{map_err}
use enr.Prelude.Panicking.{◌>>=◌}
use enr.Bytes.{Bytes, v4, ◌==◌}
use enr.Crates.Rlp.{Rlp}
use enr.Crates.Hashing.{Keccak256}
use enr.Error.{EnrError, exceeds_max_size, signing_error, unsupported_identity_scheme}
use enr.Keys.Traits.{Entropy, EnrKey}
use enr.NodeId.{of_public_key}
use enr.Enr.Defs.{Enr, max_enr_size}
use enr.Enr.Getters.{id}
use enr.Enr.Encode.{rlp_content, size}
use enr.Enr.Action
use enr.Enr.Action.{Action, increment_seq, update_node_id}

module _ ⦃rlp : Rlp⦄ {K P : Type 0} (keys : EnrKey K P) where
  unfoldable pub compute_signature : Entropy → K → Enr → Panics (Result EnrError Bytes)
  compute_signature rng signing_key e = do
    scheme ← id e
    elim scheme [
      | some s ↦
          if s == v4
          then ret (map_err (λ _. signing_error) (keys.sign_v4 rng signing_key (rlp_content e)))
          else ret (err unsupported_identity_scheme)
      | none ↦ ret (err unsupported_identity_scheme)
    ]

  -- Returns the previous signature.
  unfoldable pub sign : Entropy → K → Action Bytes
  unfolding compute_signature
  sign rng key e = do
    computed ← compute_signature rng key e
    elim computed [
      | ok new_signature ↦ ret (ok e.signature, record e { signature = new_signature })
      | err x ↦ ret (err x, e)
    ]

  -- The three steps that end every update: the sequence number, the signature, the node id.
  unfoldable pub commit : ⦃keccak : Keccak256⦄ → K → Entropy → Action (Unit {0})
  commit key rng =
      Action.◌>>=◌ increment_seq λ _. Action.◌>>=◌ (sign rng key) λ _. update_node_id keys key

  unfoldable pub set_seq : ⦃keccak : Keccak256⦄ → ℕ → K → Entropy → Action (Unit {0})
  set_seq seq key rng e = do
    (signed, e') ← sign rng key (record e { seq = seq })
    elim signed [
      | err x ↦ ret (err x, record e' { seq = e.seq })
      | ok prev_signature ↦
          if ltb max_enr_size (size e')
          then ret (err exceeds_max_size, record e' { seq = e.seq; signature = prev_signature })
          else (do
            node_id ← of_public_key keys.public_key (keys.public key)
            ret (ok tt, record e' { node_id = node_id }))
    ]
