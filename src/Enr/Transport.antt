-- ===== src/Enr/Transport.antt =====
-- The record as text for serde, and what its `Debug` output shows.
use mathlib.Core.List.{Mem, Memᴰ}
use enr.Prelude.{
  ◌≤◌, ◌≡◌, ◌⊎◌, inl, inr, refl, ap, [], ◌∷◌, true, false, Bool-cases, some, ok, err, ret,
}
use enr.Bytes.{Bytes, from_utf8_lossy, ip_key, ip6_key}
use enr.Crates.Rlp.{Rlp, RlpLaws}
use enr.Crates.Hashing.{Keccak256}
use enr.Crates.Text.{Base64, Base64Laws, Hex}
use enr.Keys.Traits.{Content, EnrKey}
use enr.Enr.Defs.{Enr, max_enr_size}
use enr.Enr.Getters.{
  get_raw_rlp, node_id, seq, ip4, ip6, udp4_socket, udp6_socket, tcp4_socket, tcp6_socket,
}
use enr.Enr.Encode.{size}
use enr.Enr.Valid.{IsSound, IsValid, get_total}
use enr.Enr.Total.{Returns, >>=-Returns, id_total}
use enr.Enr.Base64.{from_str-to_base64}
use enr.Enr.Iteration.{get-Memᴰ}
use enr.Enr.Format.{
  DebugFields, is_covered, other_pairs, debug_fields, display, serialize, deserialize,
}

module _ ⦃rlp : Rlp⦄ ⦃keccak : Keccak256⦄ ⦃base64 : Base64⦄ (law : RlpLaws rlp)
    (text_law : Base64Laws base64) where
  -- A valid record of at most 300 bytes that is serialized is deserialized to the same record, and
  -- so is the text that `Display` prints. An error of the deserializer is passed on.
  pub deserialize-display :
      {K P E : Type 0} (keys : EnrKey K P) (custom : Bytes → E) (x : E) (e : Enr)
      → IsValid keys e
      → size e ≤ max_enr_size
      → (deserialize keys custom (ok (serialize e)) ≡ ret (ok e))
        × (deserialize keys custom (ok (display e)) ≡ ret (ok e))
        × (deserialize keys custom (err x) ≡ ret (err x))
  unfolding deserialize serialize display
  deserialize-display keys custom x e v small =
      let read = from_str-to_base64 law text_law keys e v small in
      (rw read refl, rw read refl, refl)

module _ ⦃hex : Hex⦄ where
  other_pairs-Memᴰ :
      (k v : Bytes) (content : Content)
      → is_covered k ≡ false
      → Memᴰ (k, v) content
      → Memᴰ (from_utf8_lossy k, hex.encode v) (other_pairs content)
  unfolding other_pairs
  other_pairs-Memᴰ k v [] shown d = elim d [ ]
  other_pairs-Memᴰ k v ((j, w) ∷ content) shown (Memᴰ.head e) =
      let is_key : k ≡ j = ap (λ (entry : Bytes × Bytes). entry.0) e in
      let is_value : v ≡ w = ap (λ (entry : Bytes × Bytes). entry.1) e in
      rw (rw is_key at shown) (Memᴰ.head (rw (is_key, is_value) refl))
  other_pairs-Memᴰ k v ((j, w) ∷ content) shown (Memᴰ.tail d) =
      let rest = other_pairs-Memᴰ k v content shown d in
      elim (Bool-cases (is_covered j)) [
        | inl skipped ↦ rw skipped rest
        | inr listed ↦ rw listed (Memᴰ.tail rest)
      ]

  module _ ⦃rlp : Rlp⦄ (law : RlpLaws rlp) where
    ip4_total : (e : Enr) → IsSound e.content → Returns (ip4 e)
    unfolding ip4
    ip4_total e s = >>=-Returns _ _ (get_total law e ip_key s) (λ o. (_, refl))

    ip6_total : (e : Enr) → IsSound e.content → Returns (ip6 e)
    unfolding ip6
    ip6_total e s = >>=-Returns _ _ (get_total law e ip6_key s) (λ o. (_, refl))

    -- Each socket is read off an address.
    sockets_total :
        (e : Enr)
        → IsSound e.content
        → Returns (udp4_socket e)
          × Returns (udp6_socket e)
          × Returns (tcp4_socket e)
          × Returns (tcp6_socket e)
    unfolding udp4_socket udp6_socket tcp4_socket tcp6_socket
    sockets_total e s = (
      >>=-Returns _ _ (ip4_total e s) (λ o. (_, refl)),
      >>=-Returns _ _ (ip6_total e s) (λ o. (_, refl)),
      >>=-Returns _ _ (ip4_total e s) (λ o. (_, refl)),
      >>=-Returns _ _ (ip6_total e s) (λ o. (_, refl)),
    )

    debug_fields_total :
        (e : Enr)
        → IsSound e.content
        → (fields : DebugFields) × (debug_fields e ≡ ret fields)
          × (fields.other_pairs ≡ other_pairs e.content)
    unfolding debug_fields
    debug_fields_total e s =
        let (scheme, h) = id_total law e s in
        let ((udp4, a), (udp6, b), (tcp4, c), (tcp6, d)) = sockets_total e s in
        let fields : DebugFields = record {
          id = scheme;
          seq = seq e;
          node_id = node_id e;
          signature = hex.encode e.signature;
          udp4 = udp4;
          udp6 = udp6;
          tcp4 = tcp4;
          tcp6 = tcp6;
          other_pairs = other_pairs e.content;
        } in
        (fields, rw h (rw a (rw b (rw c (rw d refl)))), refl)

    -- The `Debug` output of a record with sound content never panics and hides no pair: each key
    -- with a value is one of the seven that the fields stand for, or it is listed, its key read as
    -- UTF-8 and its value in hexadecimal.
    pub debug_fields_complete :
        (e : Enr) (k v : Bytes)
        → IsSound e.content
        → get_raw_rlp e k ≡ some v
        → (fields : DebugFields) × (debug_fields e ≡ ret fields)
          × ((is_covered k ≡ true) ⊎ Mem (from_utf8_lossy k, hex.encode v) fields.other_pairs)
    unfolding get_raw_rlp
    debug_fields_complete e k v s found =
        let (fields, shown, listed) = debug_fields_total e s in
        (
          fields,
          shown,
          elim (Bool-cases (is_covered k)) [
            | inl covered ↦ inl covered
            | inr other ↦
                inr
                  ∣ rw listed
                    (other_pairs-Memᴰ k v e.content other (get-Memᴰ k v e.content found)) ∣₁
          ],
        )
