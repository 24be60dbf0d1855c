-- ===== src/Enr/Sound.antt =====
-- What `decode` accepts is a valid record.
use enr.Prelude.{
  ℕ, ◌^◌, ◌≤◌, ◌<◌, ◌≡◌, refl, sym, subst, [], ◌∷◌, List, true, false, Option, none, some, Result,
  ok, err, ret, panic, Panics, All, length, arith, Bool, if◌then◌else◌,
}
use enr.Prelude.Fallible.{>>=-ok}
use enr.Prelude.Panicking
use enr.Bytes.{Bytes, text}
use enr.BtreeMap
use enr.Crates.Rlp.{Rlp, RlpLaws, IsItem, DecoderError, custom}
use enr.Crates.Hashing.{Keccak256}
use enr.NodeId.{NodeId, of_public_key}
use enr.Keys.Traits.{Content, EnrKey}
use enr.Enr.Defs.{Enr, max_enr_size}
use enr.Enr.Encode.{verify}
use enr.Enr.Decode.{
  is_unsorted, sanitize, reject_if, read_pairs, check_frame, read_items, read_record, authenticate,
  decode,
}
use enr.Enr.Valid.{IsSound, insert-IsSound, IsValid}

module _ ⦃rlp : Rlp⦄ where
  read_pairs-IsSound :
      (prev : Option Bytes) (items : List Bytes) (acc content : Content)
      → All IsItem items
      → IsSound acc
      → read_pairs prev items acc ≡ ok content
      → IsSound content
  unfolding read_pairs
  read_pairs-IsSound prev [] acc content a s h = subst IsSound (cc) s
  read_pairs-IsSound prev (k ∷ []) acc content a s h =
      let (_, _, refused) = >>=-ok (rlp.data_of k) _ h in absurd (cc refused)
  read_pairs-IsSound prev (k ∷ item ∷ items) acc content a s h =
      let (key, _, h₁) = >>=-ok (rlp.data_of k) _ h in
      let (_, sane, h₂) = >>=-ok (sanitize key item) _ h₁ in
      let (_, _, h₃) = >>=-ok (reject_if (is_unsorted prev key) _) _ h₂ in
      read_pairs-IsSound (some key) items (BtreeMap.insert key item acc) content a.1.1
        (insert-IsSound key item acc (record { sanitized = sane; item = a.1.0 }) s) h₃

  check_frame-le : (raw : Bytes) → check_frame raw ≡ ok tt → length raw ≤ max_enr_size
  unfolding check_frame
  check_frame-le raw h = ground arith

  -- The record that is returned is the one that was verified.
  pub verified_only :
      {K P : Type 0} (keys : EnrKey K P) (read e : Enr)
      → Panicking.◌>>=◌
          (verify keys read)
          (λ valid. ret (if valid then ok read else err (custom (text "Invalid Signature"))))
        ≡ ret (ok e)
      → (e ≡ read) × (verify keys read ≡ ret true)
  verified_only keys read e h = by_verify (verify keys read) refl
    where
      by_verify :
          (r : Panics Bool) → verify keys read ≡ r → (e ≡ read) × (verify keys read ≡ ret true)
      by_verify (ret true) i = ground arith
      by_verify (ret false) i = absurd (ground arith)
      by_verify panic i = absurd (ground arith)

  module _ (law : RlpLaws rlp) where
    pub read_items-IsSound :
        (items : List Bytes) (signature : Bytes) (seq : ℕ) (content : Content)
        → All IsItem items
        → read_items items ≡ ok (signature, seq, content)
        → (seq < 2 ^ 64) × IsSound content
    unfolding read_items
    read_items-IsSound [] signature seq content a h = absurd (cc)
    read_items-IsSound (first ∷ []) signature seq content a h =
        let (_, _, refused) = >>=-ok (rlp.data_of first) _ h in absurd (cc refused)
    read_items-IsSound (first ∷ second ∷ items) signature seq content a h =
        let (_, _, h₁) = >>=-ok (rlp.data_of first) _ h in
        let (n, counted, h₂) = >>=-ok (rlp.decode_u64 second) _ h₁ in
        let (c, pairs, h₃) = >>=-ok (read_pairs none items []) _ h₂ in
        let empty : IsSound [] = record { sorted = tt; entries = tt } in
        let sound = read_pairs-IsSound none items [] c a.1.1 empty pairs in
        let range = law.decode_u64_range second counted in
        (ground (arith, range), subst IsSound (ground arith) sound)

    authenticate-IsValid :
        ⦃keccak : Keccak256⦄
        → {K P : Type 0} (keys : EnrKey K P) (p : P) (signature : Bytes) (seq : ℕ)
          (content : Content) (e : Enr)
        → seq < 2 ^ 64
        → IsSound content
        → keys.enr_to_public content ≡ ok p
        → authenticate keys p signature seq content ≡ ret (ok e)
        → IsValid keys e
    unfolding authenticate
    authenticate-IsValid keys p signature seq content e range sound known h =
        by_name (of_public_key keys.public_key p) refl
      where
        read : NodeId → Enr
        read n = record { seq = seq; node_id = n; content = content; signature = signature }

        by_read :
            (n : NodeId)
            → of_public_key keys.public_key p ≡ ret n
            → (e ≡ read n) × (verify keys (read n) ≡ ret true)
            → IsValid keys e
        by_read n i (same, verified) =
            let valid : IsValid keys (read n) = record {
              seq_range = range;
              sound = sound;
              public = p;
              known = known;
              identified = i;
              verified = verified;
            } in
            subst (IsValid keys) (sym same) valid

        by_name : (r : Panics NodeId) → of_public_key keys.public_key p ≡ r → IsValid keys e
        by_name (ret n) i = by_read n i (verified_only keys (read n) e (rw (i, authenticate) at h))
        by_name panic i = absurd (ground arith)

    -- A record that `decode` returns is valid: its signature verifies, its keys ascend, its ports
    -- are ports, its values are data, and its identifier is that of its public key. The input then
    -- had at most 300 bytes.
    pub decode-IsValid :
        ⦃keccak : Keccak256⦄
        → {K P : Type 0} (keys : EnrKey K P) (raw : Bytes) (e : Enr) → decode keys raw ≡ ret (ok e)
        → IsValid keys e × (length raw ≤ max_enr_size)
    unfolding decode read_record
    decode-IsValid {P} keys raw e h = by_read (read_record raw) refl
      where
        by_key :
            (signature : Bytes) (seq : ℕ) (content : Content)
            → read_record raw ≡ ok (signature, seq, content)
            → (r : Result DecoderError P) → keys.enr_to_public content ≡ r
            → IsValid keys e × (length raw ≤ max_enr_size)
        by_key signature seq content i (ok p) known =
            let (_, framed, items) = >>=-ok (check_frame raw) _ i in
            let (range, sound) =
              read_items-IsSound (rlp.iter raw) signature seq content (law.iter-IsItem raw) items in
            (
              authenticate-IsValid keys p signature seq content e range sound known
                  (ground (arith, i, known)),
              check_frame-le raw framed,
            )
        by_key signature seq content i (err x) unknown = absurd (ground (arith, i, unknown))

        by_read :
            (r : Result DecoderError (Bytes × ℕ × Content))
            → read_record raw ≡ r
            → IsValid keys e × (length raw ≤ max_enr_size)
        by_read (ok (signature, seq, content)) i =
            by_key signature seq content i (keys.enr_to_public content) refl
        by_read (err x) i = absurd (ground (arith, i))
