-- ===== src/Enr/RoundTrip.antt =====
-- What `encode` wrote, `decode` reads back.
use enr.Prelude.{
  ℕ, ◌*◌, ◌%◌, ◌^◌, ◌≤◌, ◌<◌, ◌≡◌, refl, ◌∙◌, ap, [], ◌∷◌, ◌++◌, List, append_assoc, append-nil,
  false, Option, none, some, ok, ret, All, length, arith,
}
use enr.Bytes.{Bytes}
use enr.Bytes.Laws.{◌≺◌}
use enr.BtreeMap
use enr.BtreeMap.Laws.{IsSorted, Above, insert-append}
use enr.Crates.Rlp.{Rlp, RlpLaws, RlpStream, IsItem, list_of}
use enr.Crates.Hashing.{Keccak256}
use enr.Keys.Traits.{Content, EnrKey}
use enr.Enr.Defs.{Enr, max_enr_size}
use enr.Enr.Encode.{append_pairs, append_rlp_content, rlp_content, encode, size}
use enr.Enr.Decode.{is_unsorted, sanitize, read_pairs, check_frame, read_items, read_record, decode}
use enr.Enr.Valid.{Entry, IsSound, IsValid}

-- The order that the loop has reached: `prev` and the keys taken lie below those left.
abbrev PrevBelow : Option Bytes → Content → Type 0
PrevBelow none rest = Unit {0}
PrevBelow (some p) rest = Above p rest

abbrev pub AllBelow : Content → Content → Type 0
AllBelow acc rest = All (λ (entry : Bytes × Bytes). Above entry.0 rest) acc

pub AllBelow-head :
    (k v : Bytes) (acc rest : Content)
    → AllBelow acc ((k, v) ∷ rest)
    → All (λ (entry : Bytes × Bytes). entry.0 ≺ k) acc
AllBelow-head k v [] rest b = tt
AllBelow-head k v ((j, w) ∷ acc) rest b = (b.0.0, AllBelow-head k v acc rest b.1)

pub AllBelow-step :
    (k v : Bytes) (acc rest : Content)
    → AllBelow acc ((k, v) ∷ rest)
    → Above k rest
    → AllBelow (acc ++ (k, v) ∷ []) rest
AllBelow-step k v [] rest b h = (h, tt)
AllBelow-step k v ((j, w) ∷ acc) rest b h = (b.0.1, AllBelow-step k v acc rest b.1 h)

is_unsorted-PrevBelow :
    (prev : Option Bytes) (k v : Bytes) (rest : Content)
    → PrevBelow prev ((k, v) ∷ rest)
    → is_unsorted prev k ≡ false
is_unsorted-PrevBelow none k v rest p = refl
is_unsorted-PrevBelow (some q) k v rest p = ground arith

module _ ⦃rlp : Rlp⦄ where
  -- The items of the pairs.
  unfoldable pub pair_items : Content → List Bytes
  pair_items [] = []
  pair_items ((k, v) ∷ content) = rlp.encode_bytes k ∷ v ∷ pair_items content

  pub append_pairs-chunks :
      (content : Content) (s : RlpStream)
      → append_pairs content s ≡ record s { chunks = s.chunks ++ pair_items content }
  unfolding append_pairs pair_items
  append_pairs-chunks [] s = simp append-nil
  append_pairs-chunks ((k, v) ∷ content) s = append_pairs-chunks content _ ∙ simp append_assoc

  pub length-pair_items : (content : Content) → length (pair_items content) ≡ length content * 2
  unfolding pair_items
  length-pair_items [] = refl
  length-pair_items ((k, v) ∷ content) = omega (arith, length-pair_items content)

  -- The items of a signed record.
  abbrev pub items_of : Enr → List Bytes
  items_of e = rlp.encode_bytes e.signature ∷ rlp.encode_uint e.seq ∷ pair_items e.content

  pub encode-list_of : (e : Enr) → encode e ≡ list_of (items_of e)
  unfolding encode append_rlp_content
  encode-list_of e =
      ap (λ (s : RlpStream). rlp.out s) (append_pairs-chunks e.content _)
      ∙ (ap (λ (n : ℕ). rlp.out (record { item_count = n; chunks = items_of e }))
          (omega (arith, length-pair_items e.content)))

  -- The items that are signed.
  abbrev pub signed_items : Enr → List Bytes
  signed_items e = rlp.encode_uint e.seq ∷ pair_items e.content

  pub rlp_content-list_of : (e : Enr) → rlp_content e ≡ list_of (signed_items e)
  unfolding rlp_content append_rlp_content
  rlp_content-list_of e =
      ap (λ (s : RlpStream). rlp.out s) (append_pairs-chunks e.content _)
      ∙ (ap (λ (n : ℕ). rlp.out (record { item_count = n; chunks = signed_items e }))
          (omega (arith, length-pair_items e.content)))

  pub read_pairs-step :
      (prev : Option Bytes) (k item key : Bytes) (items : List Bytes) (acc : Content)
      → rlp.data_of k ≡ ok key
      → sanitize key item ≡ ok tt
      → is_unsorted prev key ≡ false
      → read_pairs prev (k ∷ item ∷ items) acc
        ≡ read_pairs (some key) items (BtreeMap.insert key item acc)
  unfolding read_pairs
  read_pairs-step prev k item key items acc d s o = rw d (rw s (rw o refl))

  module _ (law : RlpLaws rlp) where
    pub pair_items-IsItem :
        (content : Content) → All Entry content → All IsItem (pair_items content)
    unfolding pair_items
    pair_items-IsItem [] a = tt
    pair_items-IsItem ((k, v) ∷ content) a =
        (law.encode_bytes-IsItem k, (a.0.item, pair_items-IsItem content a.1))

    items_of-IsItem : (e : Enr) → IsSound e.content → All IsItem (items_of e)
    items_of-IsItem e s = (
      law.encode_bytes-IsItem e.signature,
      (
        rw (law.encode_uint_bytes e.seq) (law.encode_bytes-IsItem (law.uint_digits e.seq)),
        pair_items-IsItem e.content s.entries,
      ),
    )

    check_frame-list_of :
        (items : List Bytes)
        → All IsItem items
        → length (list_of items) ≤ max_enr_size
        → 0 < length items
        → length items % 2 ≡ 0
        → check_frame (list_of items) ≡ ok tt
    unfolding check_frame
    check_frame-list_of items a small some_item even =
        let (info, payload, whole) = law.list_of-IsItem items in
        ground (arith, law.is_list-list_of items, payload, whole, law.iter_len-list_of items a)

    read_pairs-pair_items :
        (prev : Option Bytes) (content acc : Content)
        → IsSorted content
        → All Entry content
        → PrevBelow prev content
        → AllBelow acc content
        → read_pairs prev (pair_items content) acc ≡ ok (acc ++ content)
    unfolding pair_items
    read_pairs-pair_items prev [] acc s a p b = unfold read_pairs in rw (append-nil acc)
    read_pairs-pair_items prev ((k, v) ∷ rest) acc s a p b =
        read_pairs-step prev (rlp.encode_bytes k) v k (pair_items rest) acc
          (law.data_of-encode_bytes k) a.0.sanitized (is_unsorted-PrevBelow prev k v rest p)
        ∙ rw (insert-append k v acc (AllBelow-head k v acc rest b)) (
            read_pairs-pair_items (some k) rest (acc ++ (k, v) ∷ []) s.1 a.1 s.0
              (AllBelow-step k v acc rest b s.0))
        ∙ ap ok (append_assoc acc ((k, v) ∷ []) rest)

    read_record-encode :
        (e : Enr)
        → e.seq < 2 ^ 64
        → IsSound e.content
        → size e ≤ max_enr_size
        → read_record (encode e) ≡ ok (e.signature, e.seq, e.content)
    unfolding read_record read_items size
    read_record-encode e range s small =
        let items = items_of e in
        let all_items = items_of-IsItem e s in
        let whole = encode-list_of e in
        let framed =
          check_frame-list_of items all_items (rw whole at small) (omega arith)
            (omega (arith, length-pair_items e.content)) in
        rw whole (
          rw framed (
            rw (law.iter-list_of items all_items) (
              rw (law.data_of-encode_bytes e.signature) (
                rw (law.decode_u64-encode_uint e.seq range)
                  (rw (read_pairs-pair_items none e.content [] s.sorted s.entries tt tt) refl)))))

    -- A valid record of at most 300 bytes is read back from its encoding.
    pub decode-encode :
        ⦃keccak : Keccak256⦄
        → {K P : Type 0} (keys : EnrKey K P) (e : Enr) → IsValid keys e
        → size e ≤ max_enr_size
        → decode keys (encode e) ≡ ret (ok e)
    unfolding decode
    decode-encode keys e v small =
        rw (read_record-encode e v.seq_range v.sound small, decode)
          (rw v.known (rw v.identified (rw v.verified refl)))
