-- ===== src/Builder/Rebuild.antt =====
-- A builder that is given the pairs of a record.
use enr.Prelude.{
  ◌+◌, ◌≤◌, ◌≡◌, refl, ap, sym, ◌∙◌, [], ◌∷◌, ◌++◌, none, some, ok, ret, All, length, append_assoc,
  append-nil,
}
use enr.Bytes.{Bytes, compare_bytes, id_key, v4}
use enr.BtreeMap
use enr.BtreeMap.Laws.{IsSorted, insert-append}
use enr.BtreeMap.Extensional.{insert_present}
use enr.Crates.Rlp.{Rlp, RlpLaws}
use enr.Crates.Hashing.{Keccak256}
use enr.NodeId.{of_public_key}
use enr.Keys.Traits.{Content, Entropy, EnrKey}
use enr.Enr.Defs.{Enr, max_enr_size}
use enr.Enr.Encode
use enr.Enr.Getters.{get_raw_rlp}
use enr.Enr.Iter.{iter}
use enr.Enr.Valid.{IsSound, Entry, data_of-sanitize}
use enr.Enr.RoundTrip.{AllBelow, AllBelow-head, AllBelow-step}
use enr.Builder.Defs.{
  Builder, default, seq, first_invalid, build, add_public_key, add_value, add_value_rlp,
}
use enr.Builder.Finish.{prepared, build-clean, finish-signed}
use enr.Builder.Fill.{add_all, put_all, add_all-put_all}

put_all-sorted :
    (acc rest : Content) → IsSorted rest → AllBelow acc rest → put_all rest acc ≡ acc ++ rest
put_all-sorted acc [] s b = sym (append-nil acc)
put_all-sorted acc ((k, v) ∷ rest) s b =
    ap (put_all rest) (insert-append k v acc (AllBelow-head k v acc rest b))
    ∙ put_all-sorted (acc ++ (k, v) ∷ []) rest s.1 (AllBelow-step k v acc rest b s.0)
    ∙ append_assoc acc ((k, v) ∷ []) rest

-- The builder with the sequence number and the pairs of a record.
abbrev pub refilled : Enr → Builder
refilled e = add_all (iter e) (seq e.seq default)

refilled_lem :
    (e : Enr)
    → IsSorted e.content
    → refilled e ≡ record { id = v4; seq = e.seq; content = e.content }
unfolding iter seq default
refilled_lem e s =
    add_all-put_all e.content (seq e.seq default)
    ∙ ap (λ (c : Content). record { id = v4; seq = e.seq; content = c })
        (put_all-sorted [] e.content s tt)

module _ ⦃rlp : Rlp⦄ (law : RlpLaws rlp) where
  first_invalid-none : (content : Content) → All Entry content → first_invalid content ≡ none
  unfolding first_invalid
  first_invalid-none [] a = refl
  first_invalid-none ((key, value) ∷ content) a =
      let (d, is_data) = data_of-sanitize law key value a.0.sanitized in
      rw (is_data, first_invalid) (first_invalid-none content a.1)

  module _ ⦃keccak : Keccak256⦄ {K P : Type 0} (keys : EnrKey K P) where
    -- What the builder signs is what the record already holds.
    prepared_lem :
        (k : K) (b : Builder)
        → IsSorted b.content
        → BtreeMap.get id_key b.content ≡ some (rlp.encode_bytes b.id)
        → BtreeMap.get (keys.enr_key (keys.public k)) b.content
          ≡ some (rlp.encode_bytes (keys.encode (keys.public k)))
        → prepared keys k b ≡ b
    unfolding add_public_key add_value add_value_rlp
    prepared_lem k b s scheme own =
        rw (insert_present id_key (rlp.encode_bytes b.id) b.content s scheme)
          (rw (insert_present (keys.enr_key (keys.public k)) _ b.content s own) refl)

    -- A builder that is given the sequence number and the pairs of a record with sound content, which
    -- stores the scheme `v4` and the key's public key and is named by that key, builds that record
    -- again under the signature that the key makes, if the signed part, the signature and 8 bytes fit.
    pub build-refilled :
        (k : K) (rng : Entropy) (e : Enr) {sig : Bytes}
        → IsSound e.content
        → get_raw_rlp e id_key ≡ some (rlp.encode_bytes v4)
        → get_raw_rlp e (keys.enr_key (keys.public k))
          ≡ some (rlp.encode_bytes (keys.encode (keys.public k)))
        → of_public_key keys.public_key (keys.public k) ≡ ret e.node_id
        → keys.sign_v4 rng k (Encode.rlp_content e) ≡ ok sig
        → length (Encode.rlp_content e) + length sig + 8 ≤ max_enr_size
        → build keys k rng (refilled e) ≡ ret (ok (record e { signature = sig }), refilled e)
    unfolding get_raw_rlp
    build-refilled k rng e {sig} s scheme own named signed small =
        let b : Builder = record { id = v4; seq = e.seq; content = e.content } in
        let filled = refilled_lem e s.sorted in
        let ready = prepared_lem k b s.sorted scheme own in
        let done = finish-signed keys k rng e named signed small in
        let built : build keys k rng b ≡ ret (ok (record e { signature = sig }), b) =
          build-clean keys k rng b (unfold compare_bytes in refl)
            (first_invalid-none e.content s.entries)
          ∙ rw ready (rw done refl) in
        rw filled built
