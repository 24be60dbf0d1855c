-- ===== src/Enr/SocketUpdate.antt =====
-- `set_socket`: a record that would be too large is left as it was, and a success stores both parts.
use enr.Prelude.{
  ◌+◌, ◌^◌, ◌<◌, ◌≡◌, ◌≢◌, refl, ◌∙◌, sym, true, false, Option, none, some, ok, err, ret, arith,
  ltb, Bool, Bool-cases, inl, inr,
}
use enr.Bytes.{Bytes, compare_bytes}
use enr.BtreeMap
use enr.BtreeMap.Laws.{IsSorted, insert-IsSorted, get-insert_self, get-insert_ne}
use enr.BtreeMap.Restore.{restore, restore-insert, insert_comm}
use enr.Crates.Rlp.{Rlp, RlpLaws}
use enr.Crates.Hashing.{Keccak256}
use enr.Error.{EnrError, exceeds_max_size}
use enr.Keys.Traits.{Content, Entropy, EnrKey}
use enr.Keys.Laws.{KeyLaws, IsUnambiguous}
use enr.Enr.Defs.{Enr, SocketAddr, v4_socket, v6_socket, max_enr_size}
use enr.Enr.Encode.{size}
use enr.Enr.Decode.{is_keyof_u16}
use enr.Enr.Action.{◌>>=◌, content_revert, raise}
use enr.Enr.Sign.{commit}
use enr.Enr.Socket.{Entries, entries, set_entries, set_socket}
use enr.Enr.Revert.{with_content}
use enr.Enr.Commit.{IsCommitted, commit-IsCommitted}
use enr.Enr.Valid.{
  IsSound, insert-IsSound, encode_bytes-IsSoundEntry, encode_uint-IsSoundEntry,
  public_key-IsSoundEntry, IsCommitted-IsOwned, IsOwned,
}

pub entries_ne :
    (socket : SocketAddr) (is_tcp : Bool)
    → (entries socket is_tcp).ip_string ≢ (entries socket is_tcp).port_string
unfolding entries
entries_ne (v4_socket s) true = ground arith
entries_ne (v4_socket s) false = ground arith
entries_ne (v6_socket s) true = ground arith
entries_ne (v6_socket s) false = ground arith

-- an address is not stored under a port's key
pub entries_ip :
    (socket : SocketAddr) (is_tcp : Bool) → is_keyof_u16 (entries socket is_tcp).ip_string ≡ false
unfolding entries is_keyof_u16 compare_bytes
entries_ip (v4_socket s) true = refl
entries_ip (v4_socket s) false = refl
entries_ip (v6_socket s) true = refl
entries_ip (v6_socket s) false = refl

revert_three :
    (x : EnrError) (i j k : Bytes) (o p q : Option Bytes) (e : Enr)
    → (content_revert i o >>= λ _.
          content_revert j p >>= λ _. content_revert k q >>= λ _. raise {A = Unit {0}} x)
        e
      ≡ ret (err x, with_content (restore k q (restore j p (restore i o e.content))) e)
revert_three x i j k none none none e = refl
revert_three x i j k none none (some w) e = refl
revert_three x i j k none (some v) none e = refl
revert_three x i j k none (some v) (some w) e = refl
revert_three x i j k (some u) none none e = refl
revert_three x i j k (some u) none (some w) e = refl
revert_three x i j k (some u) (some v) none e = refl
revert_three x i j k (some u) (some v) (some w) e = refl

-- Reverting two insertions at different keys in the order in which they were made.
restore_both :
    (j k v w : Bytes) (m : Content)
    → IsSorted m
    → j ≢ k
    → restore k
        (BtreeMap.get k (BtreeMap.insert j v m))
        (restore j (BtreeMap.get j m) (BtreeMap.insert k w (BtreeMap.insert j v m)))
      ≡ m
restore_both j k v w m s ne =
    let inner = BtreeMap.insert k w m in
    let unmoved = get-insert_ne k j w m ne in
    let first : restore j (BtreeMap.get j m) (BtreeMap.insert k w (BtreeMap.insert j v m)) ≡ inner =
      rw (insert_comm k j w v m (λ e. ne (sym e)))
        (rw (← unmoved) (restore-insert j v inner (insert-IsSorted k w m s))) in
    rw (first, get-insert_ne j k v m (λ e. ne (sym e))) (restore-insert k w m s)

module _ ⦃rlp : Rlp⦄ ⦃keccak : Keccak256⦄ {K P : Type 0} (keys : EnrKey K P) where
  -- The record with the address, the port and the signer's public key, before it is signed.
  abbrev pub with_entries : Entries → K → Enr → Enr
  with_entries s k e =
      let p = keys.public k in
      with_content
        (BtreeMap.insert (keys.enr_key p) (rlp.encode_bytes (keys.encode p)) (
          BtreeMap.insert s.port_string (rlp.encode_uint s.port)
            (BtreeMap.insert s.ip_string (rlp.encode_bytes s.octets) e.content)))
        e

  pub set_entries_big :
      (s : Entries) (k : K) (rng : Entropy) (e : Enr)
      → s.ip_string ≢ s.port_string
      → IsSorted e.content
      → ltb max_enr_size (size (with_entries s k e)) ≡ true
      → set_entries keys s k rng e ≡ ret (err exceeds_max_size, e)
  unfolding set_entries
  set_entries_big s k rng e ne sorted big =
      let p = keys.public k in
      let ip_value = rlp.encode_bytes s.octets in
      let port_value = rlp.encode_uint s.port in
      let with_ip = BtreeMap.insert s.ip_string ip_value e.content in
      let with_port = BtreeMap.insert s.port_string port_value with_ip in
      let first = restore-insert (keys.enr_key p) (rlp.encode_bytes (keys.encode p)) with_port (
        insert-IsSorted s.port_string port_value with_ip
          (insert-IsSorted s.ip_string ip_value e.content sorted)) in
      let second = restore_both s.ip_string s.port_string ip_value port_value e.content sorted ne in
      rw big (
        revert_three exceeds_max_size (keys.enr_key p) s.ip_string s.port_string _ _ _
          (with_entries s k e)
        ∙ rw first (rw second refl))

  pub set_entries_fits :
      (s : Entries) (k : K) (rng : Entropy) (e : Enr)
      → ltb max_enr_size (size (with_entries s k e)) ≡ false
      → set_entries keys s k rng e ≡ commit keys k rng (with_entries s k e)
  unfolding set_entries
  set_entries_fits s k rng e fits = rw fits refl

  -- A socket that would make the record too large before it is signed is refused and leaves the
  -- record as it was, if its keys ascend.
  pub set_socket_too_big :
      (socket : SocketAddr) (k : K) (is_tcp : Bool) (rng : Entropy) (e : Enr)
      → IsSorted e.content
      → ltb max_enr_size (size (with_entries (entries socket is_tcp) k e)) ≡ true
      → set_socket keys socket k is_tcp rng e ≡ ret (err exceeds_max_size, e)
  unfolding set_socket
  set_socket_too_big socket k is_tcp rng e sorted big =
      set_entries_big (entries socket is_tcp) k rng e (entries_ne socket is_tcp) sorted big

  pub set_socket-IsCommitted :
      (socket : SocketAddr) (k : K) (is_tcp : Bool) (rng : Entropy) (e e' : Enr)
      → IsSorted e.content
      → set_socket keys socket k is_tcp rng e ≡ ret (ok tt, e')
      → IsCommitted keys k (with_entries (entries socket is_tcp) k e) e'
  unfolding set_socket
  set_socket-IsCommitted socket k is_tcp rng e e' sorted h =
      let s = entries socket is_tcp in
      elim (Bool-cases (ltb max_enr_size (size (with_entries s k e)))) [
        | inl big ↦ absurd (cc (h, set_entries_big s k rng e (entries_ne socket is_tcp) sorted big))
        | inr fits ↦
            commit-IsCommitted keys rng k (with_entries s k e) e'
              (sym (set_entries_fits s k rng e fits) ∙ h)
      ]

  module _ (law : RlpLaws rlp) (key_law : KeyLaws keys) (own : IsUnambiguous keys) where
    -- A socket with a port of 16 bits that is set in a record with sound content leaves a valid
    -- record that is the signer's, with the next sequence number. (Its size is not checked again
    -- once it is signed.)
    pub set_socket-IsOwned :
        (socket : SocketAddr) (k : K) (is_tcp : Bool) (rng : Entropy) (e e' : Enr)
        → IsSound e.content
        → (entries socket is_tcp).port < 2 ^ 16
        → set_socket keys socket k is_tcp rng e ≡ ret (ok tt, e')
        → IsOwned keys k e' × (e'.seq ≡ e.seq + 1)
    set_socket-IsOwned socket k is_tcp rng e e' sound range h =
        let s = entries socket is_tcp in
        let p = keys.public k in
        let c = set_socket-IsCommitted socket k is_tcp rng e e' sound.sorted h in
        let ip_sound =
          insert-IsSound s.ip_string (rlp.encode_bytes s.octets) e.content
            (encode_bytes-IsSoundEntry law s.ip_string s.octets (entries_ip socket is_tcp)) sound in
        let port_sound =
          insert-IsSound s.port_string (rlp.encode_uint s.port) _
            (encode_uint-IsSoundEntry law s.port_string s.port range) ip_sound in
        let key_sound =
          insert-IsSound (keys.enr_key p) (rlp.encode_bytes (keys.encode p)) _
            (public_key-IsSoundEntry law keys key_law p) port_sound in
        (
          IsCommitted-IsOwned law keys key_law own k (with_entries s k e) e' key_sound
              (get-insert_self (keys.enr_key p) _ _) c,
          c.next,
        )
