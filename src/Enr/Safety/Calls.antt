-- ===== src/Enr/Safety/Calls.antt =====
-- Any sequence of updates ends, and leaves a safe record.
use enr.Prelude.{
  ◌^◌, ◌<◌, ◌≡◌, refl, List, [], ◌∷◌, true, false, Option, Result, ok, err, ret, All, length, ap,
  suc,
}
use enr.Bytes.{Bytes, ip_key, ip6_key, tcp_key, tcp6_key, udp_key, udp6_key, compare_bytes}
use enr.Crates.Rlp.{Rlp, RlpLaws}
use enr.Crates.Hashing.{Keccak256, KeccakLaws}
use enr.Error.{EnrError}
use enr.Keys.Traits.{Entropy, EnrKey}
use enr.Keys.Laws.{KeyLaws}
use enr.Enr.Defs.{Enr, v4_addr, v6_addr}
use enr.Enr.Getters.{get}
use enr.Enr.Decode.{is_keyof_u16}
use enr.Enr.Action.{Action, ◌>>=◌, pure, try}
use enr.Enr.Setters
use enr.Enr.Setters.{store}
use enr.Enr.Socket
use enr.Enr.Calls.{
  Call, insert_raw_rlp, insert, set_ip, set_udp4, set_udp6, set_tcp4, set_tcp6, set_public_key,
  set_udp_socket, set_tcp_socket, remove_insert, set_seq, discard, run, run_all,
}
use enr.Enr.Socket.{entries}
use enr.Enr.SocketUpdate.{entries_ip}
use enr.Enr.Valid.{
  IsSoundEntry, encode_bytes-IsSoundEntry, encode_uint-IsSoundEntry, public_key-IsSoundEntry,
  get_total,
}
use enr.Enr.Total.{Returns}
use enr.Enr.Total.Updates.{check_total}
use enr.Enr.Safety.{IsSafe, Keeps, Anything, Keeps-pure, Keeps-raise, Keeps-then}
use enr.Enr.Safety.Batch.{Keeps-remove_insert}
use enr.Enr.Safety.Updates.{Keeps-store, Keeps-set_entries, Keeps-set_seq}

module _ ⦃rlp : Rlp⦄ {P : Type 0} where
  -- A raw value is one RLP item that its key admits; a number has the width of its type.
  abbrev pub Admissible : Call P → Type 0
  Admissible (insert_raw_rlp key value) = IsSoundEntry key value
  Admissible (insert key value) = IsSoundEntry key value
  Admissible (set_ip ip) = Unit
  Admissible (set_udp4 port) = port < 2 ^ 16
  Admissible (set_udp6 port) = port < 2 ^ 16
  Admissible (set_tcp4 port) = port < 2 ^ 16
  Admissible (set_tcp6 port) = port < 2 ^ 16
  Admissible (set_public_key p) = Unit
  Admissible (set_udp_socket socket) = (entries socket false).port < 2 ^ 16
  Admissible (set_tcp_socket socket) = (entries socket true).port < 2 ^ 16
  Admissible (remove_insert remove_keys kvs) = Unit
  Admissible (set_seq seq) = seq < 2 ^ 64

module _ ⦃rlp : Rlp⦄ (law : RlpLaws rlp) ⦃keccak : Keccak256⦄ (keccak_law : KeccakLaws keccak)
    {K P S V : Type 0} (keys : EnrKey K P) (key_law : KeyLaws keys) (k256 : EnrKey S V)
    (k256_law : KeyLaws k256) where
  Keeps-insert_raw_rlp :
      (key value : Bytes) (k : K) (rng : Entropy)
      → IsSoundEntry key value
      → Keeps Anything (Setters.insert_raw_rlp keys k256 key value k rng)
  unfolding Setters.insert_raw_rlp
  Keeps-insert_raw_rlp key value k rng entry =
      let (r, checked) = check_total law keccak_law keys key_law k256 k256_law key value in
      rw checked (by_check r)
    where
      by_check :
          (r : Result EnrError (Unit {0}))
          → Keeps Anything (λ e. (try r >>= λ _. store keys key value k rng) e)
      by_check (ok tt) = Keeps-store law keccak_law keys key_law key value k rng entry
      by_check (err x) = Keeps-raise x

  Keeps-discard : {A : Type 0} (m : Action A) → Keeps Anything m → Keeps Anything (discard m)
  Keeps-discard m keeps = Keeps-then m _ keeps (λ _ _. Keeps-pure tt tt)

  -- An insertion of a sound value, whatever the setter makes of the previous one.
  Keeps-setter :
      {A : Type 0} (key value : Bytes) (k : K) (rng : Entropy) (f : Option Bytes → A)
      → IsSoundEntry key value
      → Keeps Anything
          (discard (Setters.insert_raw_rlp keys k256 key value k rng >>= λ o. pure (f o)))
  Keeps-setter key value k rng f entry = Keeps-discard _ (
      Keeps-then (Setters.insert_raw_rlp keys k256 key value k rng) _
        (Keeps-insert_raw_rlp key value k rng entry) (λ o _. Keeps-pure (f o) tt))

  pub Keeps-run :
      (c : Call P) (k : K) (rng : Entropy) → Admissible c → Keeps Anything (run keys k256 c k rng)
  unfolding run Setters.insert Setters.set_ip Setters.set_udp4 Setters.set_udp6 Setters.set_tcp4
      Setters.set_tcp6 Setters.set_public_key Socket.set_udp_socket Socket.set_tcp_socket
      Socket.set_socket is_keyof_u16 compare_bytes
  Keeps-run (insert_raw_rlp key value) k rng a =
      Keeps-discard _ (Keeps-insert_raw_rlp key value k rng a)
  Keeps-run (insert key value) k rng a = Keeps-discard _ (Keeps-insert_raw_rlp key value k rng a)
  Keeps-run (set_ip (v4_addr octets)) k rng a =
      Keeps-setter ip_key (rlp.encode_bytes octets) k rng _
        (encode_bytes-IsSoundEntry law ip_key octets refl)
  Keeps-run (set_ip (v6_addr octets)) k rng a =
      Keeps-setter ip6_key (rlp.encode_bytes octets) k rng _
        (encode_bytes-IsSoundEntry law ip6_key octets refl)
  Keeps-run (set_udp4 port) k rng a =
      Keeps-setter udp_key (rlp.encode_uint port) k rng _
        (encode_uint-IsSoundEntry law udp_key port a)
  Keeps-run (set_udp6 port) k rng a =
      Keeps-setter udp6_key (rlp.encode_uint port) k rng _
        (encode_uint-IsSoundEntry law udp6_key port a)
  Keeps-run (set_tcp4 port) k rng a =
      Keeps-setter tcp_key (rlp.encode_uint port) k rng _
        (encode_uint-IsSoundEntry law tcp_key port a)
  Keeps-run (set_tcp6 port) k rng a =
      Keeps-setter tcp6_key (rlp.encode_uint port) k rng _
        (encode_uint-IsSoundEntry law tcp6_key port a)
  Keeps-run (set_public_key p) k rng a =
      Keeps-discard _
        (Keeps-insert_raw_rlp (keys.enr_key p) _ k rng (public_key-IsSoundEntry law keys key_law p))
  Keeps-run (set_udp_socket socket) k rng a =
      Keeps-set_entries law keccak_law keys key_law (entries socket false) k rng
        (entries_ip socket false) a
  Keeps-run (set_tcp_socket socket) k rng a =
      Keeps-set_entries law keccak_law keys key_law (entries socket true) k rng
        (entries_ip socket true) a
  Keeps-run (remove_insert remove_keys kvs) k rng a =
      Keeps-discard _ (Keeps-remove_insert law keccak_law keys key_law remove_keys kvs k rng)
  Keeps-run (set_seq seq) k rng a = Keeps-set_seq law keccak_law keys key_law seq k rng a

  -- Any sequence of calls on a record with sound content and a sequence number of 64 bits ends: each
  -- call returns a result or an error, and none panics. What is left, also after errors, is again
  -- such a record, of which no value makes a getter panic. Raw values that are inserted must be
  -- single items that their keys admit.
  pub run_all_total :
      (calls : List (Call P × K × Entropy)) (e : Enr)
      → IsSafe e
      → All (λ (c : Call P × K × Entropy). Admissible c.0) calls
      → (results : List (Result EnrError (Unit {0}))) × (e' : Enr) × (run_all keys k256 calls e
          ≡ ret (results, e'))
        × (length results ≡ length calls)
        × IsSafe e'
        × ((key : Bytes) → Returns (get e' key))
  unfolding run_all
  run_all_total [] e s a = ([], e, refl, refl, s, λ key. get_total law e key s.sound)
  run_all_total ((c, k, rng) ∷ calls) e s a =
      let d = Keeps-run c k rng a.0 e s in
      let (results, e', ran, counted, safe, reads) = run_all_total calls d.left d.safe a.1 in
      (d.result ∷ results, e', rw d.returned (rw ran refl), ap suc counted, safe, reads)
