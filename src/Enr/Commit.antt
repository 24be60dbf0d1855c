-- ===== src/Enr/Commit.antt =====
-- What a signed update leaves: the next sequence number, the same content, the signer's identifier,
-- and a signature that verifies.
pub mod Endings
use enr.Prelude.{
  ◌∙◌, ◌≤◌, ◌+◌, ◌^◌, ◌<◌, ◌≡◌, refl, true, Option, none, some, Result, ok, err, Panics, ret, panic,
  arith,
}
use enr.Bytes.{Bytes, v4}
use enr.Bytes.Laws.{compare_refl, eq_of_compare}
use enr.Crates.Rlp.{Rlp}
use enr.Crates.Hashing.{Keccak256}
use enr.NodeId.{NodeId, of_public_key}
use enr.Error.{EnrError, sequence_number_too_high}
use enr.Keys.Traits.{Entropy, EnrKey}
use enr.Keys.Laws.{KeyLaws}
use enr.Enr.Defs.{Enr}
use enr.Enr.Getters.{id, get, get_raw_rlp}
use enr.Enr.Encode.{append_rlp_content, rlp_content, encode, size, verify}
use enr.Enr.Action.{increment_seq, update_node_id, >>=-ok, >>=-of_ok, >>=-of_err}
use enr.Enr.Sign.{compute_signature, sign, commit}

module _ ⦃rlp : Rlp⦄ where
  -- What is signed does not depend on the signature and the identifier.
  pub rlp_content-eq :
      (a b : Enr) → a.seq ≡ b.seq → a.content ≡ b.content → rlp_content a ≡ rlp_content b
  unfolding rlp_content append_rlp_content
  rlp_content-eq a b s c = rw (s, c)

  -- The size does not depend on the identifier.
  pub size-eq :
      (a b : Enr)
      → a.seq ≡ b.seq
      → a.content ≡ b.content
      → a.signature ≡ b.signature
      → size a ≡ size b
  unfolding size encode append_rlp_content
  size-eq a b s c g = rw (s, c, g)

  pub id-eq : (a b : Enr) → a.content ≡ b.content → id a ≡ id b
  unfolding id get get_raw_rlp
  id-eq a b c = rw c

  module _ {K P : Type 0} (keys : EnrKey K P) where
    -- The record says `v4` and carries a signature by the key.
    pub record IsSigned (k : K) (e : Enr) : Type 0 where
      pub scheme : id e ≡ ret (some v4)
      pub rng : Entropy
      pub signed : keys.sign_v4 rng k (rlp_content e) ≡ ok e.signature

    -- A record that its own key has signed verifies.
    pub verify-IsSigned :
        (law : KeyLaws keys) (k : K) (e : Enr)
        → IsSigned k e
        → keys.enr_to_public e.content ≡ ok (keys.public k)
        → verify keys e ≡ ret true
    unfolding verify
    verify-IsSigned law k e s own =
        ground (arith, compare_refl v4, s.scheme, law.verify-sign s.rng k (rlp_content e) s.signed)

    compute_signature-ok :
        (rng : Entropy) (k : K) (e : Enr) {sig : Bytes}
        → compute_signature keys rng k e ≡ ret (ok sig)
        → (id e ≡ ret (some v4)) × (keys.sign_v4 rng k (rlp_content e) ≡ ok sig)
    unfolding compute_signature
    compute_signature-ok rng k e {sig} h = by_scheme (id e) refl
      where
        by_scheme :
            (o : Panics (Option Bytes))
            → id e ≡ o
            → (id e ≡ ret (some v4)) × (keys.sign_v4 rng k (rlp_content e) ≡ ok sig)
        by_scheme (ret (some s)) i = ground (arith, eq_of_compare s v4)
        by_scheme (ret none) i = ground arith
        by_scheme panic i = ground arith

    -- A signature that is returned was put into the record, and nothing else has changed.
    pub sign-ok :
        (rng : Entropy) (k : K) (e e' : Enr) {old : Bytes}
        → sign keys rng k e ≡ ret (ok old, e')
        → (old ≡ e.signature)
          × (e' ≡ record e { signature = e'.signature })
          × (id e ≡ ret (some v4))
          × (keys.sign_v4 rng k (rlp_content e) ≡ ok e'.signature)
    unfolding sign
    sign-ok rng k e e' {old} h = by_result (compute_signature keys rng k e) refl
      where
        by_result :
            (r : Panics (Result EnrError Bytes))
            → compute_signature keys rng k e ≡ r
            → (old ≡ e.signature)
              × (e' ≡ record e { signature = e'.signature })
              × (id e ≡ ret (some v4))
              × (keys.sign_v4 rng k (rlp_content e) ≡ ok e'.signature)
        by_result (ret (ok sig)) c = ground (arith, compute_signature-ok rng k e c)
        by_result (ret (err x)) c = ground arith
        by_result panic c = ground arith

    -- A failed signature leaves the record alone.
    pub sign-err :
        (rng : Entropy) (k : K) (e e' : Enr) {x : EnrError}
        → sign keys rng k e ≡ ret (err x, e')
        → e' ≡ e
    unfolding sign
    sign-err rng k e e' h = by_result (compute_signature keys rng k e) refl
      where
        by_result :
            (r : Panics (Result EnrError Bytes)) → compute_signature keys rng k e ≡ r → e' ≡ e
        by_result (ret (ok sig)) c = ground arith
        by_result (ret (err y)) c = ground arith
        by_result panic c = ground arith

    -- How a successful update changes the record.
    pub record IsCommitted ⦃keccak : Keccak256⦄ (k : K) (e e' : Enr) : Type 0 where
      pub next : e'.seq ≡ e.seq + 1
      pub seq_range : e'.seq < 2 ^ 64
      pub same : e'.content ≡ e.content
      pub signed : IsSigned k e'
      pub identified : of_public_key keys.public_key (keys.public k) ≡ ret e'.node_id

    increment_seq-ok :
        (e e' : Enr)
        → increment_seq e ≡ ret (ok tt, e')
        → (e' ≡ record e { seq = e.seq + 1 }) × (e.seq + 1 < 2 ^ 64)
    increment_seq-ok e e' h = ground arith

    update_node_id-ok :
        ⦃keccak : Keccak256⦄
        → (k : K) (e e' : Enr) → update_node_id keys k e ≡ ret (ok tt, e')
        → (e' ≡ record e { node_id = e'.node_id })
          × (of_public_key keys.public_key (keys.public k) ≡ ret e'.node_id)
    update_node_id-ok k e e' h = by_name (of_public_key keys.public_key (keys.public k)) refl
      where
        by_name :
            (r : Panics NodeId)
            → of_public_key keys.public_key (keys.public k) ≡ r
            → (e' ≡ record e { node_id = e'.node_id })
              × (of_public_key keys.public_key (keys.public k) ≡ ret e'.node_id)
        by_name (ret n) i = ground arith
        by_name panic i = absurd (ground arith)

    pub commit-IsCommitted :
        ⦃keccak : Keccak256⦄
        → (rng : Entropy) (k : K) (e e' : Enr) → commit keys k rng e ≡ ret (ok tt, e')
        → IsCommitted k e e'
    unfolding commit
    commit-IsCommitted rng k e e' h =
        let (_, e₁, counted, h₁) = >>=-ok increment_seq _ e e' h in
        let (_, e₂, signed, named) = >>=-ok (sign keys rng k) _ e₁ e' h₁ in
        by_steps e₁ e₂ (increment_seq-ok e e₁ counted) (sign-ok rng k e₁ e₂ signed)
          (update_node_id-ok k e₂ e' named)
      where
        by_steps :
            (e₁ e₂ : Enr) {old : Bytes}
            → (e₁ ≡ record e { seq = e.seq + 1 }) × (e.seq + 1 < 2 ^ 64)
            → (old ≡ e₁.signature)
              × (e₂ ≡ record e₁ { signature = e₂.signature })
              × (id e₁ ≡ ret (some v4))
              × (keys.sign_v4 rng k (rlp_content e₁) ≡ ok e₂.signature)
            → (e' ≡ record e₂ { node_id = e'.node_id })
              × (of_public_key keys.public_key (keys.public k) ≡ ret e'.node_id)
            → IsCommitted k e e'
        by_steps e₁ e₂ (a, range) (_, b, scheme, valid) (c, named) = record {
          next = ground arith;
          seq_range = ground arith;
          same = ground arith;
          signed = record {
            scheme = id-eq e' e₁ (ground arith) ∙ scheme;
            rng = rng;
            signed = ground (arith, rlp_content-eq e' e₁ (ground arith) (ground arith));
          };
          identified = named;
        }
