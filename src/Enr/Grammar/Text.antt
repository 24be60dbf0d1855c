-- ===== src/Enr/Grammar/Text.antt =====
-- `from_str` accepts the texts of records, and no others.
use enr.Prelude.{
  ◌≤◌, ◌≡◌, ◌≢◌, ◌↔◌, inl, inr, refl, sym, ◌∙◌, ap, ◌++◌, true, false, Bool-cases, Result, ok, err,
  Panics, ret, panic, length, take, drop, append-take-drop, ltb, arith, if◌then◌else◌,
}
use enr.Bytes.{Bytes, text, compare_bytes, ◌==◌}
use enr.Bytes.Laws.{eq_of_compare}
use enr.Crates.Rlp.{Rlp, RlpLaws, DecoderError}
use enr.Crates.Hashing.{Keccak256}
use enr.Crates.Text.{Base64}
use enr.Keys.Traits.{EnrKey}
use enr.Enr.Defs.{Enr}
use enr.Enr.Decode.{decode, from_str}
use enr.Enr.Grammar.{Denotes}
use enr.Enr.Grammar.Accepts.{decode_iff_Denotes}

abbrev pub prefix : Bytes
prefix = text "enr:"

-- The text without its prefix, if it has one.
pub data Body : Bytes → Bytes → Type 0 where
  prefixed : {s body : Bytes} → s ≡ prefix ++ body → Body s body
  bare : {s : Bytes} → ((body : Bytes) → s ≢ prefix ++ body) → Body s s

-- What `from_str` decodes.
abbrev rest_of : Bytes → Bytes
rest_of s = if take 4 s == prefix then drop 4 s else s

prefix_found : (body : Bytes) → (take 4 (prefix ++ body) == prefix) ≡ true
unfolding compare_bytes
prefix_found body = refl

cut_prefix : (s : Bytes) → (take 4 s == prefix) ≡ true → s ≡ prefix ++ drop 4 s
cut_prefix s with_prefix =
    let is_prefix : take 4 s ≡ prefix = ground (arith, eq_of_compare (take 4 s) prefix) in
    sym (append-take-drop 4 s) ∙ ap (λ (t : Bytes). t ++ drop 4 s) is_prefix

without_prefix : (s body : Bytes) → s ≡ prefix ++ body → (take 4 s == prefix) ≡ false → ⊥
without_prefix s body same without =
    let found : (take 4 s == prefix) ≡ true = rw same (prefix_found body) in
    ground (arith, found, without)

rest_of-Body : (s : Bytes) → Body s (rest_of s)
rest_of-Body s = elim (Bool-cases (take 4 s == prefix)) [
  | inl with_prefix ↦ rw with_prefix (prefixed (cut_prefix s with_prefix))
  | inr without ↦ rw without (bare λ body same. without_prefix s body same without)
]

Body-rest_of : (s body : Bytes) → Body s body → rest_of s ≡ body
Body-rest_of s body (prefixed same) = rw same (rw (prefix_found body) refl)
Body-rest_of s body (bare no_prefix) = elim (Bool-cases (take 4 s == prefix)) [
  | inl with_prefix ↦ absurd (no_prefix (drop 4 s) (cut_prefix s with_prefix))
  | inr without ↦ rw without refl
]

module _ ⦃rlp : Rlp⦄ ⦃keccak : Keccak256⦄ ⦃base64 : Base64⦄ {K P : Type 0} (keys : EnrKey K P) where
  pub record TextDenotes (s : Bytes) (e : Enr) : Type 0 where
    pub long : 4 ≤ length s
    pub body : Bytes
    pub stripped : Body s body
    pub bytes : Bytes
    pub decoded : base64.decode body ≡ ok bytes
    pub denoted : Denotes keys bytes e

  from_str-decode :
      (s : Bytes) (e : Enr)
      → from_str keys s ≡ ret (ok e)
      → (4 ≤ length s)
        × ((bytes : Bytes) × (base64.decode (rest_of s) ≡ ok bytes)
            × (decode keys bytes ≡ ret (ok e)))
  unfolding from_str
  from_str-decode s e h = by_base64 (base64.decode (rest_of s)) refl
    where
      by_decode :
          (bytes : Bytes)
          → base64.decode (rest_of s) ≡ ok bytes
          → (r : Panics (Result DecoderError Enr)) → decode keys bytes ≡ r
          → (4 ≤ length s)
            × ((bytes : Bytes) × (base64.decode (rest_of s) ≡ ok bytes)
                × (decode keys bytes ≡ ret (ok e)))
      by_decode bytes i (ret (ok f)) j = (ground arith, (bytes, i, ground (arith, i, j)))
      by_decode bytes i (ret (err x)) j = absurd (ground (arith, i, j))
      by_decode bytes i panic j = absurd (ground (arith, i, j))

      by_base64 :
          (r : Result Bytes Bytes)
          → base64.decode (rest_of s) ≡ r
          → (4 ≤ length s)
            × ((bytes : Bytes) × (base64.decode (rest_of s) ≡ ok bytes)
                × (decode keys bytes ≡ ret (ok e)))
      by_base64 (ok bytes) i = by_decode bytes i (decode keys bytes) refl
      by_base64 (err x) i = absurd (ground (arith, i))

  decode-from_str :
      (s bytes : Bytes) (e : Enr)
      → 4 ≤ length s
      → base64.decode (rest_of s) ≡ ok bytes
      → decode keys bytes ≡ ret (ok e)
      → from_str keys s ≡ ret (ok e)
  unfolding from_str
  decode-from_str s bytes e long decoded read =
      let enough : ltb (length s) 4 ≡ false = ground (arith, long) in
      rw enough (rw decoded (rw read refl))

  -- `from_str` returns a record exactly for the texts of at least four characters that are the
  -- base64 form, behind `enr:` or bare, of bytes that the format describes.
  pub from_str_iff_TextDenotes :
      (law : RlpLaws rlp) (s : Bytes) (e : Enr) → (from_str keys s ≡ ret (ok e)) ↔ TextDenotes s e
  from_str_iff_TextDenotes law s e = (denotes, accepts)
    where
      denotes : from_str keys s ≡ ret (ok e) → TextDenotes s e
      denotes h =
          let (long, (bytes, decoded, read)) = from_str-decode s e h in
          record {
            long = long;
            body = rest_of s;
            stripped = rest_of-Body s;
            bytes = bytes;
            decoded = decoded;
            denoted = (decode_iff_Denotes keys law bytes e).0 read;
          }

      accepts : TextDenotes s e → from_str keys s ≡ ret (ok e)
      accepts d =
          decode-from_str s d.bytes e d.long (rw (Body-rest_of s d.body d.stripped) d.decoded)
            ((decode_iff_Denotes keys law d.bytes e).1 d.denoted)
