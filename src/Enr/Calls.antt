-- ===== src/Enr/Calls.antt =====
-- Every method of src/lib.rs that takes `&mut self`, as a value, and sequences of their calls.
use enr.Prelude.{ℕ, List, [], ◌∷◌, Result, Panics, ret}
use enr.Prelude.Panicking
use enr.Bytes.{Bytes}
use enr.Crates.Rlp.{Rlp}
use enr.Crates.Hashing.{Keccak256}
use enr.Error.{EnrError}
use enr.Keys.Traits.{Entropy, EnrKey}
use enr.Enr.Defs.{Enr, IpAddr, SocketAddr}
use enr.Enr.Action.{Action, ◌>>=◌, pure}
use enr.Enr.Sign
use enr.Enr.Setters
use enr.Enr.Socket
use enr.Enr.RemoveInsert

-- A call, less the signing key and the generator that all of them take. `insert` gets the encoding
-- of its value.
pub data Call (P : Type 0) : Type 0 where
  insert_raw_rlp : Bytes → Bytes → Call P
  insert : Bytes → Bytes → Call P
  set_ip : IpAddr → Call P
  set_udp4 : ℕ → Call P
  set_udp6 : ℕ → Call P
  set_tcp4 : ℕ → Call P
  set_tcp6 : ℕ → Call P
  set_public_key : P → Call P
  set_udp_socket : SocketAddr → Call P
  set_tcp_socket : SocketAddr → Call P
  remove_insert : List Bytes → List (Bytes × Bytes) → Call P
  set_seq : ℕ → Call P

abbrev pub discard : {A : Type 0} → Action A → Action (Unit {0})
discard m = m >>= λ _. pure tt

module _ ⦃rlp : Rlp⦄ ⦃keccak : Keccak256⦄ {K P S V : Type 0} (keys : EnrKey K P)
    (k256 : EnrKey S V) where
  -- The method that is called, with its result forgotten.
  unfoldable pub run : Call P → K → Entropy → Action (Unit {0})
  run (insert_raw_rlp key value) k rng = discard (Setters.insert_raw_rlp keys k256 key value k rng)
  run (insert key value) k rng = discard (Setters.insert keys k256 (λ b. b) key value k rng)
  run (set_ip ip) k rng = discard (Setters.set_ip keys k256 ip k rng)
  run (set_udp4 port) k rng = discard (Setters.set_udp4 keys k256 port k rng)
  run (set_udp6 port) k rng = discard (Setters.set_udp6 keys k256 port k rng)
  run (set_tcp4 port) k rng = discard (Setters.set_tcp4 keys k256 port k rng)
  run (set_tcp6 port) k rng = discard (Setters.set_tcp6 keys k256 port k rng)
  run (set_public_key p) k rng = Setters.set_public_key keys k256 p k rng
  run (set_udp_socket socket) k rng = Socket.set_udp_socket keys socket k rng
  run (set_tcp_socket socket) k rng = Socket.set_tcp_socket keys socket k rng
  run (remove_insert remove_keys kvs) k rng =
      discard (RemoveInsert.remove_insert keys remove_keys kvs k rng)
  run (set_seq seq) k rng = Sign.set_seq keys seq k rng

  -- The calls one after the other, each on the record that the one before has left.
  unfoldable pub run_all :
      List (Call P × K × Entropy) → Enr → Panics (List (Result EnrError (Unit {0})) × Enr)
  run_all [] e = ret ([], e)
  run_all ((c, k, rng) ∷ calls) e =
      Panicking.◌>>=◌ (run c k rng e)
        λ left. Panicking.◌>>=◌ (run_all calls left.1) λ rest. ret (left.0 ∷ rest.0, rest.1)
