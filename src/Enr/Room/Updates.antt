-- ===== src/Enr/Room/Updates.antt =====
-- Sockets and batches that fit.
use enr.Prelude.{
  ◌+◌, ◌^◌, ◌≤◌, ◌<◌, ◌≡◌, ◌≢◌, refl, sym, ap, ◌∙◌, List, Bool, true, false, Option, some, ok, ret,
  arith, length, ltb,
}
use enr.Bytes.{Bytes, id_key, v4}
use enr.BtreeMap
use enr.BtreeMap.Laws.{IsSorted, get-insert_ne}
use enr.Crates.Rlp.{Rlp, RlpLaws}
use enr.Crates.Hashing.{Keccak256, KeccakLaws}
use enr.Keys.Traits.{Content, Entropy, EnrKey}
use enr.Keys.Laws.{KeyLaws, IsCompact}
use enr.Enr.Defs.{Enr, SocketAddr, v4_socket, v6_socket, max_enr_size}
use enr.Enr.Getters.{id}
use enr.Enr.Encode.{size, rlp_content}
use enr.Enr.Socket.{entries, set_socket}
use enr.Enr.SocketUpdate.{with_entries}
use enr.Enr.RemoveInsert.{remove_insert}
use enr.Enr.Removal.{taken, replaced}
use enr.Enr.Removal.Update.{prepared}
use enr.Enr.Revert.{with_content}
use enr.Enr.Outcome.{
  Ending, sign_outcome, place, placed, sized, remove_insert_outcome, socket_outcome,
}
use enr.Enr.Outcomes.{set_socket-outcome}
use enr.Enr.Outcomes.Batch.{remove_insert-outcome}
use enr.Enr.Room.{
  weight, weight-insert, length-encode_uint_le, size_le, named, signature_made, id-get,
}

-- The names of a socket's entries are short, and none is the identity scheme's.
entries_short :
    (socket : SocketAddr) (is_tcp : Bool)
    → (length (entries socket is_tcp).ip_string ≤ 3)
      × (length (entries socket is_tcp).port_string ≤ 4)
unfolding entries
entries_short (v4_socket s) true = (omega arith, omega arith)
entries_short (v4_socket s) false = (omega arith, omega arith)
entries_short (v6_socket s) true = (omega arith, omega arith)
entries_short (v6_socket s) false = (omega arith, omega arith)

entries_id :
    (socket : SocketAddr) (is_tcp : Bool)
    → (id_key ≢ (entries socket is_tcp).ip_string) × (id_key ≢ (entries socket is_tcp).port_string)
unfolding entries
entries_id (v4_socket s) true = ((λ h. ground (arith, h)), (λ h. ground (arith, h)))
entries_id (v4_socket s) false = ((λ h. ground (arith, h)), (λ h. ground (arith, h)))
entries_id (v6_socket s) true = ((λ h. ground (arith, h)), (λ h. ground (arith, h)))
entries_id (v6_socket s) false = ((λ h. ground (arith, h)), (λ h. ground (arith, h)))

module _ ⦃rlp : Rlp⦄ (law : RlpLaws rlp) ⦃keccak : Keccak256⦄ {K P : Type 0} (keys : EnrKey K P)
    (compact : IsCompact keys) (keccak_law : KeccakLaws keccak) (key_law : KeyLaws keys) where
  -- What a signed record keeps of the record before.
  pub record IsNext (e e' : Enr) : Type 0 where
    pub counted : e'.seq ≡ e.seq + 1
    pub same : e'.content ≡ e.content
    pub short : length e'.signature ≤ 64

  sign_outcome_fits :
      {A : Type 0} (finish : Enr → Ending A) (k : K) (rng : Entropy) (e : Enr)
      → id e ≡ ret (some v4)
      → e.seq + 1 < 2 ^ 64
      → ((msg : Bytes) → (sig : Bytes) × (keys.sign_v4 rng k msg ≡ ok sig))
      → (e' : Enr) × (sign_outcome keys finish k rng e ≡ finish e') × IsNext e e'
  sign_outcome_fits finish k rng e scheme more signs =
      let counted : Enr = record e { seq = e.seq + 1 } in
      let (sig, signed) = signs (rlp_content counted) in
      let (n, is_named) = named law keys compact keccak_law key_law (keys.public k) in
      let computed =
        signature_made law keys compact rng k counted (id-get counted e refl ∙ scheme) signed in
      (
        record counted { signature = sig; node_id = n },
        rw (computed, is_named) (ground (arith, more)),
        record {
          counted = refl;
          same = refl;
          short = compact.length-sign_v4 rng k (rlp_content counted) signed;
        },
      )

  weight-with_entries :
      (socket : SocketAddr) (is_tcp : Bool) (k : K) (e : Enr)
      → (entries socket is_tcp).port < 2 ^ 16
      → length (entries socket is_tcp).octets ≤ 16
      → weight (with_entries keys (entries socket is_tcp) k e).content
        ≤ weight e.content + length (entries socket is_tcp).octets + 75
  weight-with_entries socket is_tcp k e range sized =
      let s = entries socket is_tcp in
      let p = keys.public k in
      let small = compact.length-encode p in
      let name = compact.length-enr_key p in
      let (ip_short, port_short) = entries_short socket is_tcp in
      let inner = BtreeMap.insert s.ip_string (rlp.encode_bytes s.octets) e.content in
      omega (
        arith,
        small,
        name,
        ip_short,
        port_short,
        law.length-encode_bytes_le s.octets (omega (arith, sized)),
        length-encode_uint_le law s.port (omega (arith, range)),
        weight-insert law s.ip_string (rlp.encode_bytes s.octets) e.content
            (omega (arith, ip_short)),
        weight-insert law s.port_string (rlp.encode_uint s.port) inner (omega (arith, port_short)),
        weight-insert law (keys.enr_key p) (rlp.encode_bytes (keys.encode p))
            (BtreeMap.insert s.port_string (rlp.encode_uint s.port) inner) (omega (arith, name)),
        law.length-encode_bytes_le (keys.encode p) (omega (arith, small)),
      )

  -- A socket is set if the stored pairs and its octets have at most 144 bytes, under the conditions of
  -- an insertion.
  pub set_socket_fits :
      (socket : SocketAddr) (k : K) (is_tcp : Bool) (rng : Entropy) (e : Enr)
      → IsSorted e.content
      → (entries socket is_tcp).port < 2 ^ 16
      → id e ≡ ret (some v4)
      → e.seq + 1 < 2 ^ 64
      → length e.signature ≤ 64
      → weight e.content + length (entries socket is_tcp).octets ≤ 144
      → length (entries socket is_tcp).octets ≤ 16
      → ((msg : Bytes) → (sig : Bytes) × (keys.sign_v4 rng k msg ≡ ok sig))
      → (e' : Enr) × (set_socket keys socket k is_tcp rng e ≡ ret (ok tt, e'))
        × IsNext (with_entries keys (entries socket is_tcp) k e) e'
  set_socket_fits socket k is_tcp rng e sorted range scheme more short light octets signs =
      let filled = with_entries keys (entries socket is_tcp) k e in
      let heavy = weight-with_entries socket is_tcp k e range octets in
      let before = size_le law filled short (omega arith) (omega (arith, heavy, light)) in
      let s = entries socket is_tcp in
      let p = keys.public k in
      let (ip_ne, port_ne) = entries_id socket is_tcp in
      let kept : BtreeMap.get id_key filled.content ≡ BtreeMap.get id_key e.content =
        get-insert_ne (keys.enr_key p) id_key _ _ (λ i. (key_law.enr_key-IsFree p).ne_id (sym i))
        ∙ get-insert_ne s.port_string id_key _ _ port_ne
        ∙ get-insert_ne s.ip_string id_key _ e.content ip_ne in
      let fits : ltb max_enr_size (size filled) ≡ false = ground (arith, before, heavy, light) in
      let (e', signed, next) =
        sign_outcome_fits (λ signed. ret (ok tt, signed)) k rng filled
          (id-get filled e kept ∙ scheme) more signs in
      (
        e',
        set_socket-outcome keys socket k is_tcp rng e sorted
            ∙ unfold socket_outcome in (rw fits signed),
        next,
      )

  -- A batch whose values are placed succeeds if the pairs have at most 219 bytes afterwards and still
  -- name the scheme `v4`, under the conditions of an insertion.
  pub remove_insert_fits :
      (remove_keys : List Bytes) (kvs : List (Bytes × Bytes)) (k : K) (rng : Entropy) (e : Enr)
      (content : Content)
      → place kvs (prepared keys remove_keys k e.content) ≡ placed content
      → id (with_content content e) ≡ ret (some v4)
      → e.seq + 1 < 2 ^ 64
      → weight content ≤ 219
      → ((msg : Bytes) → (sig : Bytes) × (keys.sign_v4 rng k msg ≡ ok sig))
      → (e' : Enr) × (remove_insert keys remove_keys kvs k rng e
          ≡ ret (
            ok (taken remove_keys e.content, replaced kvs (prepared keys remove_keys k e.content)),
            e',
          ))
        × IsNext (with_content content e) e'
  unfolding remove_insert_outcome
  remove_insert_fits remove_keys kvs k rng e content is_placed scheme more light signs =
      let returned : List (Option Bytes) × List (Option Bytes) =
        (taken remove_keys e.content, replaced kvs (prepared keys remove_keys k e.content)) in
      let (e', signed, next) =
        sign_outcome_fits (sized keys returned (λ _. e)) k rng (with_content content e) scheme more
          signs in
      let after =
        size_le law e' next.short (omega (arith, more, next.counted))
          (omega (arith, light, ap weight next.same)) in
      let fits : ltb max_enr_size (size e') ≡ false =
        ground (arith, after, light, ap weight next.same) in
      (
        e',
        remove_insert-outcome keys remove_keys kvs k rng e
            ∙ rw (is_placed, remove_insert_outcome) (signed ∙ rw fits refl),
        next,
      )
