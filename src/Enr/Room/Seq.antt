-- ===== src/Enr/Room/Seq.antt =====
-- Sequence numbers that fit.
use enr.Prelude.{ℕ, ◌^◌, ◌≤◌, ◌<◌, ◌≡◌, refl, ◌∙◌, false, some, ok, ret, arith, ltb}
use enr.Bytes.{Bytes, v4}
use enr.Crates.Rlp.{Rlp, RlpLaws}
use enr.Crates.Hashing.{Keccak256, KeccakLaws}
use enr.Keys.Traits.{Entropy, EnrKey}
use enr.Keys.Laws.{KeyLaws, IsCompact}
use enr.Enr.Defs.{Enr, max_enr_size}
use enr.Enr.Getters.{id}
use enr.Enr.Encode.{size, rlp_content}
use enr.Enr.Sign.{set_seq}
use enr.Enr.Outcome.{seq_outcome}
use enr.Enr.Outcomes.{set_seq-outcome}
use enr.Enr.Room.{weight, size_le, named, signature_made, id-get}

module _ ⦃rlp : Rlp⦄ (law : RlpLaws rlp) ⦃keccak : Keccak256⦄ {K P : Type 0} (keys : EnrKey K P)
    (compact : IsCompact keys) (keccak_law : KeccakLaws keccak) (key_law : KeyLaws keys) where
  -- A record with another sequence number, signed.
  pub record IsRenumbered (seq : ℕ) (k : K) (rng : Entropy) (e e' : Enr) : Type 0 where
    pub ran : set_seq keys seq k rng e ≡ ret (ok tt, e')
    pub numbered : e'.seq ≡ seq
    pub same : e'.content ≡ e.content
    pub signed : keys.sign_v4 rng k (rlp_content (record e { seq = seq })) ≡ ok e'.signature

  -- Any sequence number of 64 bits can be set in a record of the scheme `v4` with at most 219 bytes of
  -- pairs, by a key that signs.
  pub set_seq_fits :
      (seq : ℕ) (k : K) (rng : Entropy) (e : Enr)
      → id e ≡ ret (some v4)
      → seq < 2 ^ 64
      → weight e.content ≤ 219
      → ((msg : Bytes) → (sig : Bytes) × (keys.sign_v4 rng k msg ≡ ok sig))
      → (e' : Enr) × IsRenumbered seq k rng e e'
  unfolding seq_outcome
  set_seq_fits seq k rng e scheme range light signs =
      let renumbered : Enr = record e { seq = seq } in
      let (sig, signed) = signs (rlp_content renumbered) in
      let (n, is_named) = named law keys compact keccak_law key_law (keys.public k) in
      let computed =
        signature_made law keys compact rng k renumbered (id-get renumbered e refl ∙ scheme)
          signed in
      let resigned : Enr = record renumbered { signature = sig } in
      let after =
        size_le law resigned (compact.length-sign_v4 rng k (rlp_content renumbered) signed) range
          (omega (arith, light)) in
      let fits : ltb max_enr_size (size resigned) ≡ false = ground (arith, after, light) in
      (
        record resigned { node_id = n },
        record {
          ran =
              set_seq-outcome keys seq k rng e
              ∙ rw (computed, seq_outcome) (rw fits (rw is_named refl));
          numbered = refl;
          same = refl;
          signed = signed;
        },
      )
