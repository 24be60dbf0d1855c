-- ===== src/Enr/Reach.antt =====
-- Sequences of updates, by any keys of one key type.
use enr.Prelude.{ℕ, ◌^◌, ◌<◌, ◌≡◌, ◌≢◌, List, Option, Bool, ok, err, ret, All}
use enr.Bytes.{Bytes}
use enr.Crates.Rlp.{Rlp, RlpLaws}
use enr.Crates.Hashing.{Keccak256}
use enr.Error.{EnrError, exceeds_max_size}
use enr.Keys.Traits.{Entropy, EnrKey}
use enr.Keys.Laws.{KeyLaws, IsUnambiguous, Stores}
use enr.Enr.Defs.{Enr, SocketAddr}
use enr.Enr.Sign.{set_seq}
use enr.Enr.Setters.{insert_raw_rlp}
use enr.Enr.Socket.{entries, set_socket}
use enr.Enr.RemoveInsert.{remove_insert}
use enr.Enr.Valid.{IsSoundEntry, IsValid}
use enr.Enr.Update.{insert_raw_rlp-IsOwned}
use enr.Enr.SocketUpdate.{set_socket-IsOwned}
use enr.Enr.Seq.{set_seq-err, set_seq-ok}
use enr.Enr.Removal.Update.{remove_insert-IsOwned}
use enr.Enr.Removal.Failures.{remove_insert_too_big}

module _ ⦃rlp : Rlp⦄ ⦃keccak : Keccak256⦄ {K P S V : Type 0} (keys : EnrKey K P)
    (k256 : EnrKey S V) where
  -- The calls that succeed under these conditions, and the failures that restore.
  pub data Step : Enr → Enr → Type 0 where
    inserted :
        {e e' : Enr} (key value : Bytes) (k : K) (rng : Entropy) (previous : Option Bytes)
        → IsSoundEntry key value
        → insert_raw_rlp keys k256 key value k rng e ≡ ret (ok previous, e')
        → Step e e'
    socket_set :
        {e e' : Enr} (socket : SocketAddr) (k : K) (is_tcp : Bool) (rng : Entropy)
        → (entries socket is_tcp).port < 2 ^ 16
        → set_socket keys socket k is_tcp rng e ≡ ret (ok tt, e')
        → Step e e'
    replaced :
        {e e' : Enr} (remove_keys : List Bytes) (kvs : List (Bytes × Bytes)) (k : K) (rng : Entropy)
        (returned : List (Option Bytes) × List (Option Bytes))
        → All (λ kv. kv.0 ≢ keys.enr_key (keys.public k)) kvs
        → remove_insert keys remove_keys kvs k rng e ≡ ret (ok returned, e')
        → Step e e'
    replacement_too_big :
        {e e' : Enr} (remove_keys : List Bytes) (kvs : List (Bytes × Bytes)) (k : K) (rng : Entropy)
        → remove_insert keys remove_keys kvs k rng e ≡ ret (err exceeds_max_size, e')
        → Step e e'
    renumbered :
        {e e' : Enr} (seq : ℕ) (k : K) (rng : Entropy)
        → seq < 2 ^ 64
        → Stores keys (keys.public k) e.content
        → set_seq keys seq k rng e ≡ ret (ok tt, e')
        → Step e e'
    renumbering_failed :
        {e e' : Enr} (seq : ℕ) (k : K) (rng : Entropy) (x : EnrError)
        → set_seq keys seq k rng e ≡ ret (err x, e')
        → Step e e'

  pub data Reaches : Enr → Enr → Type 0 where
    done : {e : Enr} → Reaches e e
    then_step : {e e₁ e' : Enr} → Reaches e e₁ → Step e₁ e' → Reaches e e'

  module _ (law : RlpLaws rlp) (key_law : KeyLaws keys) (own : IsUnambiguous keys) where
    Step-IsValid : (e e' : Enr) → IsValid keys e → Step e e' → IsValid keys e'
    Step-IsValid e e' v (inserted key value k rng previous entry h) =
        (insert_raw_rlp-IsOwned keys k256 law key_law own key value k rng e e' v.sound entry
          h).0.valid
    Step-IsValid e e' v (socket_set socket k is_tcp rng range h) =
        (set_socket-IsOwned keys law key_law own socket k is_tcp rng e e' v.sound range h).0.valid
    Step-IsValid e e' v (replaced remove_keys kvs k rng returned other h) =
        (remove_insert-IsOwned keys law key_law own remove_keys kvs k rng e e' v.sound other
          h).0.valid
    Step-IsValid e e' v (replacement_too_big remove_keys kvs k rng h) =
        rw (remove_insert_too_big keys remove_keys kvs k rng e e' h) v
    Step-IsValid e e' v (renumbered seq k rng range stored h) =
        (set_seq-ok keys key_law own seq k rng e e' range v.sound stored h).3.valid
    Step-IsValid e e' v (renumbering_failed seq k rng x h) =
        rw (set_seq-err keys seq k rng e e' h) v

    -- A valid record stays valid through every sequence of these steps, each by any key: a successful
    -- insertion of a sound value; a socket, with a port of 16 bits, that is set; a successful
    -- `remove_insert`, none of whose new values is under the name of the signer's public key, and one
    -- that fails for the size; a sequence number of 64 bits that is set by a key whose public key the
    -- record stores, and a failed `set_seq`. The key type keeps the promises of the traits and reads a
    -- stored key as that key.
    pub Reaches-IsValid : (e e' : Enr) → IsValid keys e → Reaches e e' → IsValid keys e'
    Reaches-IsValid e e' v done = v
    Reaches-IsValid e e' v (then_step {e₁ = e₁} r s) =
        Step-IsValid e₁ e' (Reaches-IsValid e e₁ v r) s
