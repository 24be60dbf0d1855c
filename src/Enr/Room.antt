-- ===== src/Enr/Room.antt =====
-- How much a record may hold: bounds of its size by what it stores.
pub mod Updates
pub mod Seq
use enr.Prelude.{
  ℕ, ◌+◌, ◌^◌, ◌≤◌, ◌<◌, ◌≡◌, ◌≢◌, refl, sym, ap, ◌∙◌, [], ◌∷◌, false, some, ok, ret, arith, length,
  ltb,
}
use enr.Bytes.{Bytes, compare_bytes, id_key, v4}
use enr.Bytes.Laws.{eq_of_compare, compare_refl}
use enr.BtreeMap
use enr.BtreeMap.Laws.{get-insert_ne}
use enr.Crates.Rlp.{Rlp, RlpLaws, total}
use enr.Crates.Hashing.{Keccak256, KeccakLaws}
use enr.NodeId.{NodeId, of_public_key}
use enr.NodeId.Laws.{of_public_key_lem}
use enr.Keys.Traits.{Content, Entropy, EnrKey}
use enr.Keys.Laws.{KeyLaws, IsCompact}
use enr.Enr.Defs.{Enr, max_enr_size}
use enr.Enr.Getters.{id, get, get_raw_rlp}
use enr.Enr.Encode.{size, rlp_content}
use enr.Enr.RoundTrip.{pair_items, items_of, encode-list_of}
use enr.Enr.Reserved.{check_spec_reserved_keys}
use enr.Enr.Sign.{compute_signature}
use enr.Enr.Setters.{insert_raw_rlp}
use enr.Enr.Revert.{stored_content, unsigned}
use enr.Enr.Success.{insert_raw_rlp_success}

-- The identity scheme is read off its entry alone.
pub id-get :
    ⦃rlp : Rlp⦄
    → (a b : Enr) → BtreeMap.get id_key a.content ≡ BtreeMap.get id_key b.content
    → id a ≡ id b
unfolding id get get_raw_rlp
id-get a b h = ground (arith, h)

module _ ⦃rlp : Rlp⦄ where
  -- The length of the encoded pairs.
  abbrev pub weight : Content → ℕ
  weight content = total (pair_items content)

  module _ (law : RlpLaws rlp) where
    -- An insertion adds at most the key, its header and the value.
    pub weight-insert :
        (key value : Bytes) (content : Content)
        → length key < 2 ^ 16
        → weight (BtreeMap.insert key value content)
          ≤ weight content + length key + 3 + length value
    unfolding BtreeMap.insert pair_items
    weight-insert key value [] h = omega (arith, law.length-encode_bytes_le key h)
    weight-insert key value ((j, w) ∷ content) h = ground (
      arith,
      law.length-encode_bytes_le key h,
      eq_of_compare key j,
      weight-insert key value content h,
    )

    pub length-encode_uint_le : (n : ℕ) → n < 2 ^ 64 → length (rlp.encode_uint n) ≤ 11
    length-encode_uint_le n h =
        let digits = law.length-uint_digits n h in
        omega (
          arith,
          digits,
          ap length (law.encode_uint_bytes n),
          law.length-encode_bytes_le (law.uint_digits n) (omega (arith, digits)),
        )

    -- A record is its pairs, and at most 81 bytes for a signature of 64 bytes, the sequence number and
    -- the headers.
    pub size_le :
        (e : Enr)
        → length e.signature ≤ 64
        → e.seq < 2 ^ 64
        → weight e.content ≤ 300
        → size e ≤ weight e.content + 81
    unfolding size
    size_le e sig range light =
        let own = law.length-encode_bytes_le e.signature (omega (arith, sig)) in
        let counted = length-encode_uint_le e.seq range in
        let whole = ap length (encode-list_of e) in
        omega (
          arith,
          own,
          counted,
          whole,
          law.length-list_of_le (items_of e) (omega (arith, own, counted)),
        )

    module _ ⦃keccak : Keccak256⦄ {K P : Type 0} (keys : EnrKey K P)
        (compact : IsCompact keys) where
      weight-stored_content :
          (key value : Bytes) (k : K) (content : Content)
          → length key < 2 ^ 16
          → weight (stored_content keys key value k content)
            ≤ weight content + length key + length value + 51
      weight-stored_content key value k content h =
          let p = keys.public k in
          let small = compact.length-encode p in
          omega (
            arith,
            weight-insert key value content h,
            weight-insert (keys.enr_key p) (rlp.encode_bytes (keys.encode p))
                (BtreeMap.insert key value content) (omega (arith, compact.length-enr_key p)),
            compact.length-enr_key p,
            small,
            law.length-encode_bytes_le (keys.encode p) (omega (arith, small)),
          )

      -- A signature is computed for a record of the scheme `v4` if the key signs its content.
      pub signature_made :
          (rng : Entropy) (k : K) (e : Enr) {sig : Bytes}
          → id e ≡ ret (some v4)
          → keys.sign_v4 rng k (rlp_content e) ≡ ok sig
          → compute_signature keys rng k e ≡ ret (ok sig)
      unfolding compute_signature
      signature_made rng k e scheme signed = ground (arith, scheme, signed, compare_refl v4)

      pub named :
          (keccak_law : KeccakLaws keccak) (key_law : KeyLaws keys) (p : P)
          → (n : NodeId) × (of_public_key keys.public_key p ≡ ret n)
      named keccak_law key_law p =
          let (_, open_form) = key_law.encode_uncompressed_total p in
          (_, of_public_key_lem keccak_law keys.public_key p open_form)

      module _ {S V : Type 0} (k256 : EnrKey S V) (keccak_law : KeccakLaws keccak)
          (key_law : KeyLaws keys) where
        -- An insertion that is accepted succeeds if the stored pairs, the key and the value have at
        -- most 168 bytes, the record is of the scheme `v4`, its signature has at most 64 bytes and
        -- its number can be counted up, the key inserted is not `id`, and the signer signs. The
        -- record then has the value and the signer's public key, the next number, and again a
        -- signature of at most 64 bytes. The key type keeps the promises of the traits, and its keys
        -- and signatures are as short as those of the supported curves: names of at most 9 bytes,
        -- public keys of 33 and signatures of 64.
        pub insert_raw_rlp_fits :
            (key value : Bytes) (k : K) (rng : Entropy) (e : Enr)
            → check_spec_reserved_keys k256 key value ≡ ret (ok tt)
            → key ≢ id_key
            → id e ≡ ret (some v4)
            → e.seq + 1 < 2 ^ 64
            → length e.signature ≤ 64
            → weight e.content + length key + length value ≤ 168
            → ((msg : Bytes) → (sig : Bytes) × (keys.sign_v4 rng k msg ≡ ok sig))
            → (e' : Enr) × (insert_raw_rlp keys k256 key value k rng e
                ≡ ret (ok (get_raw_rlp e key), e'))
              × (e'.seq ≡ e.seq + 1)
              × (e'.content ≡ stored_content keys key value k e.content)
              × (length e'.signature ≤ 64)
        insert_raw_rlp_fits key value k rng e accepted other scheme more sized light signs =
            let p = keys.public k in
            let content = stored_content keys key value k e.content in
            let heavy = weight-stored_content key value k e.content (omega (arith, light)) in
            let counted : Enr = record (unsigned keys key value k e) { seq = e.seq + 1 } in
            let same_scheme : BtreeMap.get id_key content ≡ BtreeMap.get id_key e.content =
              get-insert_ne (keys.enr_key p) id_key _ _
                (λ i. (key_law.enr_key-IsFree p).ne_id (sym i))
              ∙ get-insert_ne key id_key value e.content (λ i. other (sym i)) in
            let (sig, signed) = signs (rlp_content counted) in
            let sig_small = compact.length-sign_v4 rng k (rlp_content counted) signed in
            let (n, is_named) = named keccak_law key_law p in
            let e' : Enr = record {
              seq = e.seq + 1;
              node_id = n;
              content = content;
              signature = sig;
            } in
            let before =
              size_le (unsigned keys key value k e) sized (omega arith)
                (omega (arith, heavy, light)) in
            let after = size_le e' sig_small more (omega (arith, heavy, light)) in
            (
              e',
              insert_raw_rlp_success keys k256 key value k rng e e' accepted
                  (ground (arith, before, heavy, light)) more
                  (signature_made rng k counted (id-get counted e same_scheme ∙ scheme) signed)
                  is_named refl refl (ground (arith, after, heavy, light)),
              refl,
              refl,
              sig_small,
            )
