-- ===== src/NodeId/Laws.antt =====
-- Node identifiers have 32 bytes, deriving one never panics, and they survive serialisation.
use Prim.Native.Nat.{min}
use enr.Prelude.{
  ℕ, zero, suc, ◌-◌, ◌≤◌, ◌<◌, ◌≡◌, refl, ap, [], ◌∷◌, ◌++◌, length, length-append, replicate, drop,
  ok, err, ret, expect, arith, append-nil, All, ◌≢◌, ◌∙◌, ◌↔◌, sym,
}
use native.Mathlib.Decide.{dec_lt}
use enr.Bytes.Laws.{eq_of_compare}
use enr.Bytes.{Bytes, text, compare_bytes}
use enr.Crates.Hashing.{Keccak256, KeccakLaws}
use enr.Crates.Text.{Hex, HexLaws}
use enr.Keys.Traits.{EnrPublicKey}
use enr.NodeId.Defs.{NodeId, parse, of_public_key, serialize, strip_0x, deserialize}

abbrev pub zeros : ℕ → Bytes
zeros n = replicate n 0

-- dropping `n` of `k` zeros leaves `k - n` of them
drop-zeros : (n k : ℕ) → n ≤ k → drop n (zeros k) ≡ zeros (k - n)
drop-zeros zero k h = ground arith
drop-zeros (suc n) zero h = absurd (omega arith)
drop-zeros (suc n) (suc k) h =
    let e : suc k - suc n ≡ k - n = omega arith in rw e (drop-zeros n k (omega arith))

length-zeros : (n : ℕ) → length (zeros n) ≡ n
length-zeros zero = refl
length-zeros (suc n) = ap suc (length-zeros n)

-- `parse` refuses more than 32 bytes; a shorter input is padded with zeros behind.
pub parse_lem :
    (b : Bytes)
    → (32 < length b → parse b ≡ err (text "Input too large"))
      × (length b ≤ 32 → parse b ≡ ok (record { raw = b ++ zeros (32 - length b) }))
unfolding parse
parse_lem b = (λ h. ground arith, λ h. fits h)
  where
    fits : length b ≤ 32 → parse b ≡ ok (record { raw = b ++ zeros (32 - length b) })
    fits h =
        let e : min 32 (length b) ≡ length b = omega arith in
        ground (arith, e, ap (λ n. drop n (zeros 32)) e, drop-zeros (length b) 32 h)

-- Every identifier that `parse` returns has 32 bytes.
pub length-parse : (b : Bytes) {n : NodeId} → parse b ≡ ok n → length n.raw ≡ 32
length-parse b {n} e = elim (dec_lt 32 (length b)) [
  | yes p ↦ cc ((parse_lem b).0 p)
  | no p ↦
      let raw : n.raw ≡ b ++ zeros (32 - length b) = ground (arith, (parse_lem b).1) in
      omega (
        arith,
        ap length raw,
        length-append b (zeros (32 - length b)),
        length-zeros (32 - length b),
      )
]

-- `parse` returns an identifier exactly for at most 32 bytes: it has 32 bytes, the input and zeros
-- behind it.
pub parse_iff :
    (b : Bytes) (n : NodeId)
    → (parse b ≡ ok n)
      ↔ ((length b ≤ 32) × (length n.raw ≡ 32) × (n.raw ≡ b ++ zeros (32 - length b)))
parse_iff b n =
    (parsed, λ (small, _, raw). (parse_lem b).1 small ∙ ap (λ r. ok (record { raw = r })) (sym raw))
  where
    parsed :
        parse b ≡ ok n
        → (length b ≤ 32) × (length n.raw ≡ 32) × (n.raw ≡ b ++ zeros (32 - length b))
    parsed h = elim (dec_lt 32 (length b)) [
      | yes p ↦ absurd (cc (h, (parse_lem b).0 p))
      | no p ↦ (omega arith, length-parse b h, ground (arith, h, (parse_lem b).1))
    ]

parse_full : (b : Bytes) → length b ≡ 32 → parse b ≡ ok (record { raw = b })
parse_full b h =
    let e : 32 - length b ≡ 0 = omega arith in (parse_lem b).1 (omega arith) ∙ rw (e, append-nil)

module _ ⦃h : Keccak256⦄ (law : KeccakLaws h) where
  -- The identifier of a public key is the hash of its uncompressed form, and the `expect` does not
  -- panic.
  pub of_public_key_lem :
      {P : Type 0} (ops : EnrPublicKey P) (p : P) {b : Bytes}
      → ops.encode_uncompressed p ≡ ret b
      → of_public_key ops p ≡ ret (record { raw = h.hash b })
  unfolding of_public_key
  of_public_key_lem ops p {b} e = rw e (ap expect (parse_full (h.hash b) (law.length-hash b)))

module _ ⦃hex : Hex⦄ (law : HexLaws hex) where
  strip_0x_bare : (b : Bytes) → All (λ x. x ≢ b'x') b → strip_0x b ≡ b
  unfolding strip_0x
  strip_0x_bare [] a = refl
  strip_0x_bare (x ∷ []) a = refl
  strip_0x_bare (x ∷ y ∷ rest) a = ground (arith, eq_of_compare (x ∷ y ∷ []) (text "0x"))

  -- An identifier of 32 bytes is read back from its serialised form, and from its digits without the
  -- prefix.
  pub deserialize-serialize :
      (n : NodeId)
      → length n.raw ≡ 32
      → (deserialize (serialize n) ≡ ok n) × (deserialize (hex.encode n.raw) ≡ ok n)
  unfolding deserialize serialize compare_bytes
  deserialize-serialize n h =
      let read = law.from_hex_32-encode n.raw h in
      (ground arith, ground (arith, strip_0x_bare (hex.encode n.raw) (law.encode_alphabet n.raw)))
