-- ===== src/Enr/Grammar/Accepts.antt =====
-- `decode` accepts the bytes of the grammar, and no others.
use enr.Prelude.{
  ℕ, ◌%◌, ◌≤◌, ◌≡◌, ◌≢◌, ◌↔◌, refl, ap, subst, List, [], ◌∷◌, true, none, Result, ok, err, Panics,
  ret, panic, length, arith,
}
use enr.Prelude.Fallible.{>>=-ok}
use enr.Bytes.{Bytes}
use enr.Crates.Rlp.{Rlp, RlpLaws, PayloadInfo, IsItem, DecoderError}
use enr.Crates.Hashing.{Keccak256}
use enr.NodeId.{NodeId, of_public_key}
use enr.Keys.Traits.{Content, EnrKey}
use enr.Enr.Defs.{Enr, max_enr_size}
use enr.Enr.Decode.{read_pairs, check_frame, read_items, read_record, authenticate, decode}
use enr.Enr.Grammar.{Pairs, IsRecord, Denotes}
use enr.Enr.Sound.{verified_only, decode-IsValid}
use enr.Enr.Grammar.Items.{read_pairs-Pairs, Pairs-read_pairs}

module _ ⦃rlp : Rlp⦄ where
  check_frame-accepts :
      (raw : Bytes)
      → check_frame raw ≡ ok tt
      → (length raw ≤ max_enr_size)
        × (rlp.is_list raw ≡ true)
        × IsItem raw
        × (rlp.iter_len raw ≢ 0)
        × (rlp.iter_len raw % 2 ≡ 0)
  unfolding check_frame
  check_frame-accepts raw h = by_payload (rlp.payload_info raw) refl
    where
      by_payload :
          (r : Result DecoderError PayloadInfo)
          → rlp.payload_info raw ≡ r
          → (length raw ≤ max_enr_size)
            × (rlp.is_list raw ≡ true)
            × IsItem raw
            × (rlp.iter_len raw ≢ 0)
            × (rlp.iter_len raw % 2 ≡ 0)
      by_payload (ok p) i =
          (ground arith, ground arith, (p, i, ground arith), (λ z. ground arith), ground arith)
      by_payload (err x) i = absurd (ground arith)

  accepts-check_frame :
      (raw : Bytes)
      → length raw ≤ max_enr_size
      → rlp.is_list raw ≡ true
      → IsItem raw
      → rlp.iter_len raw ≢ 0
      → rlp.iter_len raw % 2 ≡ 0
      → check_frame raw ≡ ok tt
  unfolding check_frame
  accepts-check_frame raw small list (p, i, whole) some_item even = ground arith

  read_items-IsRecord :
      (raw signature : Bytes) (seq : ℕ) (content : Content)
      → read_record raw ≡ ok (signature, seq, content)
      → IsRecord raw signature seq content
  unfolding read_record read_items
  read_items-IsRecord raw signature seq content h =
      let (_, framed, read) = >>=-ok (check_frame raw) _ h in
      by_items (rlp.iter raw) refl (check_frame-accepts raw framed) read
    where
      by_items :
          (items : List Bytes)
          → rlp.iter raw ≡ items
          → (length raw ≤ max_enr_size)
            × (rlp.is_list raw ≡ true)
            × IsItem raw
            × (rlp.iter_len raw ≢ 0)
            × (rlp.iter_len raw % 2 ≡ 0)
          → read_items items ≡ ok (signature, seq, content)
          → IsRecord raw signature seq content
      by_items [] i f r = absurd (cc)
      by_items (first ∷ []) i f r =
          let (_, _, refused) = >>=-ok (rlp.data_of first) _ r in absurd (cc refused)
      by_items (first ∷ second ∷ items) i f r =
          let (s, signed, h₁) = >>=-ok (rlp.data_of first) _ r in
          let (n, counted, h₂) = >>=-ok (rlp.decode_u64 second) _ h₁ in
          let (c, read, h₃) = >>=-ok (read_pairs none items []) _ h₂ in
          let (rest, pairs, same) = read_pairs-Pairs none items [] c refl read in
          record {
            small = f.0;
            list = f.1;
            whole = f.2;
            some_item = f.3;
            even = f.4;
            signature_item = first;
            seq_item = second;
            pair_items = items;
            items = i;
            signature_data = ground (arith, signed, h₃);
            seq_data = ground (arith, counted, h₃);
            pairs = subst (Pairs none items) (ground (arith, same, h₃)) pairs;
          }

  IsRecord-read_items :
      (raw signature : Bytes) (seq : ℕ) (content : Content)
      → IsRecord raw signature seq content
      → read_record raw ≡ ok (signature, seq, content)
  unfolding read_record read_items
  IsRecord-read_items raw signature seq content r =
      rw (accepts-check_frame raw r.small r.list r.whole r.some_item r.even) (
        rw r.items (
          rw r.signature_data
            (rw r.seq_data (rw (Pairs-read_pairs none r.pair_items [] content refl r.pairs) refl))))

  module _ ⦃keccak : Keccak256⦄ {K P : Type 0} (keys : EnrKey K P) where
    authenticate-fields :
        (p : P) (signature : Bytes) (seq : ℕ) (content : Content) (e : Enr)
        → authenticate keys p signature seq content ≡ ret (ok e)
        → (e.signature ≡ signature) × (e.seq ≡ seq) × (e.content ≡ content)
    unfolding authenticate
    authenticate-fields p signature seq content e h = by_name (of_public_key keys.public_key p) refl
      where
        read : NodeId → Enr
        read n = record { seq = seq; node_id = n; content = content; signature = signature }

        by_name :
            (r : Panics NodeId)
            → of_public_key keys.public_key p ≡ r
            → (e.signature ≡ signature) × (e.seq ≡ seq) × (e.content ≡ content)
        by_name (ret n) i =
            let (same, _) = verified_only keys (read n) e (rw (i, authenticate) at h) in
            (
              ap (λ (x : Enr). x.signature) same,
              ap (λ (x : Enr). x.seq) same,
              ap (λ (x : Enr). x.content) same,
            )
        by_name panic i = absurd (ground arith)

    decode-read_record :
        (raw : Bytes) (e : Enr)
        → decode keys raw ≡ ret (ok e)
        → read_record raw ≡ ok (e.signature, e.seq, e.content)
    unfolding decode
    decode-read_record raw e h = by_read (read_record raw) refl
      where
        by_key :
            (signature : Bytes) (seq : ℕ) (content : Content)
            → read_record raw ≡ ok (signature, seq, content)
            → (r : Result DecoderError P) → keys.enr_to_public content ≡ r
            → read_record raw ≡ ok (e.signature, e.seq, e.content)
        by_key signature seq content i (ok p) known =
            let (a, b, c) =
              authenticate-fields p signature seq content e (ground (arith, i, known)) in
            rw i (rw a (rw b (rw c refl)))
        by_key signature seq content i (err x) unknown = absurd (ground (arith, i, unknown))

        by_read :
            (r : Result DecoderError (Bytes × ℕ × Content))
            → read_record raw ≡ r
            → read_record raw ≡ ok (e.signature, e.seq, e.content)
        by_read (ok (signature, seq, content)) i =
            by_key signature seq content i (keys.enr_to_public content) refl
        by_read (err x) i = absurd (ground (arith, i))

    Denotes-decode : (raw : Bytes) (e : Enr) → Denotes keys raw e → decode keys raw ≡ ret (ok e)
    unfolding decode authenticate
    Denotes-decode raw e d =
        rw (IsRecord-read_items raw e.signature e.seq e.content d.form, decode)
          (rw d.known (rw d.identified (rw d.verified refl)))

    -- `decode` returns a record exactly for the bytes that the format describes: one list of at most
    -- 300 bytes, whose items are the signature, the sequence number and pairs with ascending keys, a
    -- port under each key of a port and a value that can be read as RLP data under all others, where a
    -- public key is known, names the record and verifies its signature.
    pub decode_iff_Denotes :
        (law : RlpLaws rlp) (raw : Bytes) (e : Enr)
        → (decode keys raw ≡ ret (ok e)) ↔ Denotes keys raw e
    decode_iff_Denotes law raw e = (denotes, Denotes-decode raw e)
      where
        denotes : decode keys raw ≡ ret (ok e) → Denotes keys raw e
        denotes h =
            let (v, _) = decode-IsValid law keys raw e h in
            record {
              form =
                  read_items-IsRecord raw e.signature e.seq e.content (decode-read_record raw e h);
              public = v.public;
              known = v.known;
              identified = v.identified;
              verified = v.verified;
            }
