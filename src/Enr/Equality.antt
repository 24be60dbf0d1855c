-- ===== src/Enr/Equality.antt =====
-- `PartialEq` and `Hash` agree.
use enr.Prelude.{◌≡◌, ◌↔◌, ap, true, arith}
use enr.Bytes.Laws.{eq_of_compare, compare_refl}
use enr.Enr.Defs.{Enr}
use enr.Enr.Encode.{enr_eq, hash_input}

-- Two records are equal exactly if the same is fed to the hasher: the contract of `Eq` and `Hash`.
pub enr_eq_iff : (a b : Enr) → (enr_eq a b ≡ true) ↔ (hash_input a ≡ hash_input b)
unfolding enr_eq hash_input
enr_eq_iff a b = (
  λ h.
      ground (
        arith,
        h,
        eq_of_compare a.node_id.raw b.node_id.raw,
        eq_of_compare a.signature b.signature,
      ),
  λ h.
      let seqs : a.seq ≡ b.seq = ap (λ p. p.0) h in
      let names : a.node_id.raw ≡ b.node_id.raw = ap (λ p. p.1) h in
      let signatures : a.signature ≡ b.signature = ap (λ p. p.2) h in
      rw (seqs, names, signatures)
        (ground (arith, compare_refl b.node_id.raw, compare_refl b.signature)),
)
