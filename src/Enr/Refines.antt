-- ===== src/Enr/Refines.antt =====
-- The updates of src/lib.rs do what the abstract ones promise.
pub mod Sequences
pub mod Signed
use mathlib.Core.Path.{ap₂, fun_ext}
use enr.Prelude.{
  ℕ, ◌+◌, ◌^◌, ◌<◌, ◌≡◌, ◌≢◌, refl, sym, ap, ◌∙◌, List, [], ◌∷◌, Bool, true, false, Bool-cases, inl,
  inr, Option, none, some, Result, ok, err, Panics, ret, All, arith, if◌then◌else◌,
}
use enr.Bytes.{Bytes, ◌==◌, ip_key, ip6_key, tcp_key, tcp6_key, udp_key, udp6_key}
use enr.Bytes.Laws.{eq_of_compare, compare_refl}
use enr.BtreeMap
use enr.BtreeMap.Laws.{IsSorted, get-insert, get-remove_self, get-remove_ne, remove-IsSorted}
use enr.Crates.Rlp.{Rlp, RlpLaws}
use enr.Crates.Hashing.{Keccak256, KeccakLaws}
use enr.Keys.Traits.{Content, Entropy, EnrKey}
use enr.Enr.Defs.{Enr, IpAddr, v4_addr, v6_addr, SocketAddr}
use enr.Enr.Getters.{get_raw_rlp}
use enr.Enr.Action.{Action, ◌>>=◌, >>=-ok, pure}
use enr.Enr.Revert.{with_content, unsigned}
use enr.Enr.Commit.{IsCommitted}
use enr.Enr.Abstract.{
  View, view, write, erase, count, write_all, write_signer, write_entries, stored, apply, replay,
}
use enr.Enr.Calls.{
  Call, insert_raw_rlp, insert, set_ip, set_udp4, set_udp6, set_tcp4, set_tcp6, set_public_key,
  set_udp_socket, set_tcp_socket, remove_insert, set_seq, discard, run, run_all,
}
use enr.Enr.Setters
use enr.Enr.Socket
use enr.Enr.RemoveInsert
use enr.Enr.Socket.{Entries, entries}
use enr.Enr.SocketUpdate.{with_entries, set_socket-IsCommitted}
use enr.Enr.Removal.{removed, inserted}
use enr.Enr.Removal.Update.{prepared, remove_insert-IsReplaced}
use enr.Enr.Seq.{set_seq-IsRenumbered}
use enr.Enr.Update.{insert_raw_rlp-IsStored}
use enr.Enr.Valid.{IsSound}
use enr.Keys.Laws.{KeyLaws, IsUnambiguous}

pub view-eq : (u v : View) → u.seq ≡ v.seq → ((q : Bytes) → u.read q ≡ v.read q) → u ≡ v
view-eq u v s r =
    ap₂ (λ (n : ℕ) (f : Bytes → Option Bytes). record { seq = n; read = f }) s (fun_ext r)

get-remove :
    {V : Type 0} (q k : Bytes) (m : BtreeMap.BtreeMap V)
    → IsSorted m
    → BtreeMap.get q (BtreeMap.remove k m) ≡ (if q == k then none else BtreeMap.get q m)
get-remove q k m s = elim (Bool-cases (q == k)) [
  | inl same ↦
      let is_key : q ≡ k = ground (arith, eq_of_compare q k) in
      rw same (rw is_key (get-remove_self k m s))
  | inr other ↦
      let ne : q ≢ k = λ i. ground (arith, i, compare_refl k) in rw other (get-remove_ne k q m ne)
]

view-insert :
    (key value : Bytes) (e : Enr)
    → view (with_content (BtreeMap.insert key value e.content) e) ≡ write key (some value) (view e)
unfolding view get_raw_rlp
view-insert key value e = view-eq _ _ refl (λ q. get-insert q key value e.content)

view-remove :
    (key : Bytes) (e : Enr)
    → IsSorted e.content
    → view (with_content (BtreeMap.remove key e.content) e) ≡ write key none (view e)
unfolding view get_raw_rlp
view-remove key e s = view-eq _ _ refl (λ q. get-remove q key e.content s)

module _ ⦃rlp : Rlp⦄ ⦃keccak : Keccak256⦄ {K P : Type 0} (keys : EnrKey K P) where
  view-committed : (k : K) (e e' : Enr) → IsCommitted keys k e e' → view e' ≡ count (view e)
  unfolding view get_raw_rlp
  view-committed k e e' c = view-eq _ _ c.next (λ q. ap (BtreeMap.get q) c.same)

  view-unsigned :
      (key value : Bytes) (k : K) (e : Enr)
      → count (view (unsigned keys key value k e)) ≡ stored keys key value (keys.public k) (view e)
  view-unsigned key value k e =
      let p = keys.public k in
      let outer =
        view-insert (keys.enr_key p) (rlp.encode_bytes (keys.encode p))
          (with_content (BtreeMap.insert key value e.content) e) in
      ap count (outer ∙ ap (write_signer keys p) (view-insert key value e))

  view-removed :
      (remove_keys : List Bytes) (e : Enr)
      → IsSorted e.content
      → view (with_content (removed remove_keys e.content) e) ≡ erase remove_keys (view e)
  view-removed [] e s = refl
  view-removed (key ∷ more) e s =
      view-removed more (with_content (BtreeMap.remove key e.content) e)
        (remove-IsSorted key e.content s)
      ∙ ap (erase more) (view-remove key e s)

  view-inserted :
      (kvs : List (Bytes × Bytes)) (e : Enr)
      → view (with_content (inserted kvs e.content) e) ≡ write_all keys kvs (view e)
  view-inserted [] e = refl
  view-inserted ((key, value) ∷ rest) e =
      view-inserted rest (with_content (BtreeMap.insert key (rlp.encode_bytes value) e.content) e)
      ∙ ap (write_all keys rest) (view-insert key (rlp.encode_bytes value) e)

  view-with_entries :
      (s : Entries) (k : K) (e : Enr)
      → view (with_entries keys s k e)
        ≡ write_signer keys (keys.public k) (write_entries keys s (view e))
  view-with_entries s k e =
      let p = keys.public k in
      let with_ip =
        with_content (BtreeMap.insert s.ip_string (rlp.encode_bytes s.octets) e.content) e in
      let with_port =
        with_content (BtreeMap.insert s.port_string (rlp.encode_uint s.port) with_ip.content) e in
      view-insert (keys.enr_key p) (rlp.encode_bytes (keys.encode p)) with_port
      ∙ ap (write_signer keys p) (
          view-insert s.port_string (rlp.encode_uint s.port) with_ip
          ∙ ap (write s.port_string (some (rlp.encode_uint s.port)))
              (view-insert s.ip_string (rlp.encode_bytes s.octets) e))

  discard-ok :
      {A : Type 0} (m : Action A) (e e' : Enr)
      → discard m e ≡ ret (ok tt, e')
      → (a : A) × (m e ≡ ret (ok a, e'))
  discard-ok m e e' h =
      let (a, e₁, first, last) = >>=-ok m _ e e' h in (a, ground (arith, first, last))

  module _ {S V : Type 0} (k256 : EnrKey S V) where
    -- An insertion, its result forgotten.
    stored-view :
        (key value : Bytes) (k : K) (rng : Entropy) (e e' : Enr)
        → IsSorted e.content
        → discard (Setters.insert_raw_rlp keys k256 key value k rng) e ≡ ret (ok tt, e')
        → view e' ≡ stored keys key value (keys.public k) (view e)
    stored-view key value k rng e e' s h =
        let (_, i) = discard-ok (Setters.insert_raw_rlp keys k256 key value k rng) e e' h in
        let done = insert_raw_rlp-IsStored keys k256 key value k rng e e' s i in
        view-committed k (unsigned keys key value k e) e' done.committed
        ∙ view-unsigned key value k e

    -- The same of a setter, whatever it makes of the previous value.
    setter-view :
        {A : Type 0} (key value : Bytes) (k : K) (rng : Entropy) (f : Option Bytes → A) (e e' : Enr)
        → IsSorted e.content
        → discard (Setters.insert_raw_rlp keys k256 key value k rng >>= λ o. pure (f o)) e
          ≡ ret (ok tt, e')
        → view e' ≡ stored keys key value (keys.public k) (view e)
    setter-view key value k rng f e e' s h =
        let insertion = Setters.insert_raw_rlp keys k256 key value k rng in
        let (_, set) = discard-ok (insertion >>= λ o. pure (f o)) e e' h in
        let (_, e₁, first, last) = >>=-ok insertion (λ o. pure (f o)) e e' set in
        stored-view key value k rng e e' s (rw (first, ◌>>=◌) (ground (arith, last)))

    module _ (law : RlpLaws rlp) (key_law : KeyLaws keys) (own : IsUnambiguous keys) where
      pub run-view :
          (c : Call P) (k : K) (rng : Entropy) (e e' : Enr)
          → IsSound e.content
          → run keys k256 c k rng e ≡ ret (ok tt, e')
          → view e' ≡ apply keys c (keys.public k) (view e)
      unfolding run apply Setters.insert Setters.set_ip Setters.set_udp4 Setters.set_udp6
          Setters.set_tcp4 Setters.set_tcp6 Setters.set_public_key Socket.set_udp_socket
          Socket.set_tcp_socket
      run-view (insert_raw_rlp key value) k rng e e' s h =
          stored-view key value k rng e e' s.sorted h
      run-view (insert key value) k rng e e' s h = stored-view key value k rng e e' s.sorted h
      run-view (set_ip (v4_addr octets)) k rng e e' s h =
          setter-view ip_key (rlp.encode_bytes octets) k rng _ e e' s.sorted h
      run-view (set_ip (v6_addr octets)) k rng e e' s h =
          setter-view ip6_key (rlp.encode_bytes octets) k rng _ e e' s.sorted h
      run-view (set_udp4 port) k rng e e' s h =
          setter-view udp_key (rlp.encode_uint port) k rng _ e e' s.sorted h
      run-view (set_udp6 port) k rng e e' s h =
          setter-view udp6_key (rlp.encode_uint port) k rng _ e e' s.sorted h
      run-view (set_tcp4 port) k rng e e' s h =
          setter-view tcp_key (rlp.encode_uint port) k rng _ e e' s.sorted h
      run-view (set_tcp6 port) k rng e e' s h =
          setter-view tcp6_key (rlp.encode_uint port) k rng _ e e' s.sorted h
      run-view (set_public_key p) k rng e e' s h =
          stored-view (keys.enr_key p) (rlp.encode_bytes (keys.encode p)) k rng e e' s.sorted h
      run-view (set_udp_socket socket) k rng e e' s h =
          view-committed k (with_entries keys (entries socket false) k e) e'
            (set_socket-IsCommitted keys socket k false rng e e' s.sorted h)
          ∙ ap count (view-with_entries (entries socket false) k e)
      run-view (set_tcp_socket socket) k rng e e' s h =
          view-committed k (with_entries keys (entries socket true) k e) e'
            (set_socket-IsCommitted keys socket k true rng e e' s.sorted h)
          ∙ ap count (view-with_entries (entries socket true) k e)
      run-view (remove_insert remove_keys kvs) k rng e e' s h =
          let (returned, i) =
            discard-ok (RemoveInsert.remove_insert keys remove_keys kvs k rng) e e' h in
          let p = keys.public k in
          let done = remove_insert-IsReplaced keys law key_law own remove_keys kvs k rng e e' s i in
          let without = with_content (removed remove_keys e.content) e in
          view-committed k _ e' done.committed
          ∙ ap count (
              view-inserted kvs (with_content (prepared keys remove_keys k e.content) e)
              ∙ ap (write_all keys kvs) (
                  view-insert (keys.enr_key p) (rlp.encode_bytes (keys.encode p)) without
                  ∙ ap (write_signer keys p) (view-removed remove_keys e s.sorted)))
      run-view (set_seq seq) k rng e e' s h =
          let done = set_seq-IsRenumbered keys seq k rng e e' h in
          unfold view get_raw_rlp in view-eq _ _ done.numbered (λ q. ap (BtreeMap.get q) done.same)
