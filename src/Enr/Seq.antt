-- ===== src/Enr/Seq.antt =====
-- `set_seq`: all or nothing, and what it does not check.
use enr.Prelude.{
  ◌^◌, ◌≤◌, ◌<◌, ◌≡◌, refl, ◌∙◌, ℕ, false, Result, ok, err, Panics, ret, panic, arith, ltb,
  if◌then◌else◌,
}
use enr.Prelude.Panicking
use enr.Bytes.{Bytes, v4}
use enr.Bytes.Laws.{compare_refl}
use enr.Crates.Rlp.{Rlp}
use enr.Crates.Hashing.{Keccak256}
use enr.Error.{EnrError, exceeds_max_size}
use enr.NodeId.{NodeId, of_public_key}
use enr.Keys.Traits.{Entropy, EnrKey}
use enr.Keys.Laws.{KeyLaws, IsUnambiguous, Stores}
use enr.Enr.Defs.{Enr, max_enr_size}
use enr.Enr.Encode.{size, public_key, verify, rlp_content}
use enr.Enr.Sign.{sign, set_seq}
use enr.Enr.Commit.{IsSigned, sign-ok, sign-err, rlp_content-eq, size-eq, id-eq}
use enr.Enr.Valid.{IsSound, IsOwned, signed-IsOwned}

module _ ⦃rlp : Rlp⦄ ⦃keccak : Keccak256⦄ {K P : Type 0} (keys : EnrKey K P) where
  -- How a successful call has ended.
  pub record IsRenumbered (seq : ℕ) (k : K) (e e' : Enr) : Type 0 where
    pub numbered : e'.seq ≡ seq
    pub same : e'.content ≡ e.content
    pub signed : IsSigned keys k e'
    pub identified : of_public_key keys.public_key (keys.public k) ≡ ret e'.node_id
    pub fits : size e' ≤ max_enr_size

  -- What follows a signature that was made.
  abbrev after_sign : Bytes → ℕ → K → Enr → Panics (Result EnrError (Unit {0}) × Enr)
  after_sign old seq k e =
      if ltb max_enr_size (size e)
      then ret (err exceeds_max_size, record e { seq = seq; signature = old })
      else Panicking.◌>>=◌ (of_public_key keys.public_key (keys.public k))
          (λ node_id. ret (ok tt, record e { node_id = node_id }))

  after_sign-ok :
      (old : Bytes) (seq : ℕ) (k : K) (e e' : Enr)
      → after_sign old seq k e ≡ ret (ok tt, e')
      → (e' ≡ record e { node_id = e'.node_id })
        × (of_public_key keys.public_key (keys.public k) ≡ ret e'.node_id)
        × (size e ≤ max_enr_size)
  after_sign-ok old seq k e e' h = by_name (of_public_key keys.public_key (keys.public k)) refl
    where
      by_name :
          (r : Panics NodeId)
          → of_public_key keys.public_key (keys.public k) ≡ r
          → (e' ≡ record e { node_id = e'.node_id })
            × (of_public_key keys.public_key (keys.public k) ≡ ret e'.node_id)
            × (size e ≤ max_enr_size)
      by_name (ret n) i = ground arith
      by_name panic i = absurd (ground arith)

  after_sign-err :
      (old : Bytes) (seq : ℕ) (k : K) (e e' : Enr) {x : EnrError}
      → after_sign old seq k e ≡ ret (err x, e')
      → e' ≡ record e { seq = seq; signature = old }
  after_sign-err old seq k e e' {x} h = by_name (of_public_key keys.public_key (keys.public k)) refl
    where
      by_name :
          (r : Panics NodeId)
          → of_public_key keys.public_key (keys.public k) ≡ r
          → e' ≡ record e { seq = seq; signature = old }
      by_name (ret n) i = ground arith
      by_name panic i = ground arith

  -- A call of `set_seq` that returns an error leaves the record as it was.
  pub set_seq-err :
      (seq : ℕ) (k : K) (rng : Entropy) (e e' : Enr) {x : EnrError}
      → set_seq keys seq k rng e ≡ ret (err x, e')
      → e' ≡ e
  unfolding set_seq
  set_seq-err seq k rng e e' {x} h = by_sign (sign keys rng k (record e { seq = seq })) refl
    where
      by_sign :
          (r : Panics (Result EnrError Bytes × Enr))
          → sign keys rng k (record e { seq = seq }) ≡ r
          → e' ≡ e
      by_sign (ret (ok old, e₁)) i =
          let reverted = after_sign-err old e.seq k e₁ e' (rw (i, set_seq) at h) in
          ground (arith, reverted, sign-ok keys rng k (record e { seq = seq }) e₁ i)
      by_sign (ret (err y, e₁)) i =
          ground (arith, sign-err keys rng k (record e { seq = seq }) e₁ i)
      by_sign panic i = absurd (ground arith)

  pub set_seq-IsRenumbered :
      (seq : ℕ) (k : K) (rng : Entropy) (e e' : Enr)
      → set_seq keys seq k rng e ≡ ret (ok tt, e')
      → IsRenumbered seq k e e'
  unfolding set_seq
  set_seq-IsRenumbered seq k rng e e' h = by_sign (sign keys rng k (record e { seq = seq })) refl
    where
      by_parts :
          (old : Bytes) (e₁ : Enr)
          → sign keys rng k (record e { seq = seq }) ≡ ret (ok old, e₁)
          → (e' ≡ record e₁ { node_id = e'.node_id })
            × (of_public_key keys.public_key (keys.public k) ≡ ret e'.node_id)
            × (size e₁ ≤ max_enr_size)
          → IsRenumbered seq k e e'
      by_parts old e₁ i (same, named, small) =
          let (_, signed, scheme, valid) = sign-ok keys rng k (record e { seq = seq }) e₁ i in
          record {
            numbered = ground (arith, signed);
            same = ground (arith, signed);
            signed = record {
              scheme = id-eq e' (record e { seq = seq }) (ground (arith, signed)) ∙ scheme;
              rng = rng;
              signed = ground (
                arith,
                signed,
                valid,
                rlp_content-eq e' (record e { seq = seq }) (ground (arith, signed))
                    (ground (arith, signed)),
              );
            };
            identified = named;
            fits = rw (size-eq e' e₁ (ground arith) (ground arith) (ground arith)) small;
          }

      by_sign :
          (r : Panics (Result EnrError Bytes × Enr))
          → sign keys rng k (record e { seq = seq }) ≡ r
          → IsRenumbered seq k e e'
      by_sign (ret (ok old, e₁)) i =
          by_parts old e₁ i (after_sign-ok old e.seq k e₁ e' (rw (i, set_seq) at h))
      by_sign (ret (err y, e₁)) i = absurd (ground (arith, i))
      by_sign panic i = absurd (ground (arith, i))

  -- A call of `set_seq` that succeeds sets the number, keeps the content, and leaves a valid record
  -- of at most 300 bytes that is the signer's, if the number has 64 bits and the content is sound
  -- and stores the signer's key.
  pub set_seq-ok :
      (key_law : KeyLaws keys) (own : IsUnambiguous keys)
      → (seq : ℕ) (k : K) (rng : Entropy) (e e' : Enr) → seq < 2 ^ 64
      → IsSound e.content
      → Stores keys (keys.public k) e.content
      → set_seq keys seq k rng e ≡ ret (ok tt, e')
      → (e'.seq ≡ seq) × (e'.content ≡ e.content) × (size e' ≤ max_enr_size) × IsOwned keys k e'
  set_seq-ok key_law own seq k rng e e' range sound stored h =
      let done = set_seq-IsRenumbered seq k rng e e' h in
      (
        done.numbered,
        done.same,
        done.fits,
        signed-IsOwned keys key_law own k e' (rw done.numbered range) (rw done.same sound)
            (rw done.same stored) done.signed done.identified,
      )

  -- A key other than the record's own can set the sequence number: if the content names the public key
  -- `p`, which accepts no signature of the key, a call that succeeds names the record by the key, but
  -- keeps `p` as its public key, and the record does not verify.
  pub set_seq_other_key :
      (seq : ℕ) (k : K) (rng : Entropy) (e e' : Enr) (p : P)
      → keys.enr_to_public e.content ≡ ok p
      → ((rng' : Entropy) (msg sig : Bytes)
          → keys.sign_v4 rng' k msg ≡ ok sig
          → keys.verify_v4 p msg sig ≡ false)
      → set_seq keys seq k rng e ≡ ret (ok tt, e')
      → (of_public_key keys.public_key (keys.public k) ≡ ret e'.node_id)
        × (public_key keys e' ≡ ret p)
        × (verify keys e' ≡ ret false)
  unfolding public_key verify
  set_seq_other_key seq k rng e e' p known foreign h =
      let done = set_seq-IsRenumbered seq k rng e e' h in
      let kept : keys.enr_to_public e'.content ≡ ok p = rw done.same known in
      let s = done.signed in
      let refused = foreign s.rng (rlp_content e') e'.signature s.signed in
      (done.identified, rw kept refl, ground (arith, kept, s.scheme, refused, compare_refl v4))
