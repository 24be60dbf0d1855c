-- ===== src/Enr/Reads/Ports.antt =====
-- The port getters after the port setters.
use enr.Prelude.{ℕ, ◌^◌, ◌<◌, ◌≡◌, ◌≢◌, refl, sym, ap, ◌∙◌, Option, none, some, ok, ret, arith}
use enr.Bytes.{Bytes, tcp_key, tcp6_key, udp_key, udp6_key}
use enr.BtreeMap.Laws.{IsSorted}
use enr.Crates.Rlp.{Rlp, RlpLaws}
use enr.Crates.Hashing.{Keccak256}
use enr.Keys.Traits.{Entropy, EnrKey}
use enr.Keys.Laws.{KeyLaws}
use enr.Prelude.Fallible.{to_option}
use enr.Enr.Defs.{Enr}
use enr.Enr.Getters.{get_raw_rlp, get_decodable, map_option, tcp4, tcp6, udp4, udp6, and_then_ok}
use enr.Enr.Action.{◌>>=◌, >>=-ok, pure}
use enr.Enr.Setters.{insert, insert_raw_rlp, set_tcp4, set_tcp6, set_udp4, set_udp6}
use enr.Enr.Reads.{inserted_value}

module _ ⦃rlp : Rlp⦄ ⦃keccak : Keccak256⦄ {K P S V : Type 0} (keys : EnrKey K P)
    (k256 : EnrKey S V) where
  module _ (law : RlpLaws rlp) (key_law : KeyLaws keys) where
    abbrev read_port : Bytes → Enr → Option ℕ
    read_port name e = and_then_ok (get_decodable rlp.decode_u16 e name)

    port_read :
        (name : Bytes) (e : Enr) (port : ℕ)
        → port < 2 ^ 16
        → get_raw_rlp e name ≡ some (rlp.encode_uint port)
        → read_port name e ≡ some port
    unfolding get_decodable
    port_read name e port range h = rw (h, law.decode_u16-encode_uint port range) refl

    -- what a port setter makes of the previous value
    abbrev old_port : Option Bytes → Option ℕ
    old_port raw = elim raw [ none ↦ none | some bytes ↦ to_option (rlp.decode_u16 bytes) ]

    old_port_lem : (o : Option Bytes) → old_port o ≡ and_then_ok (map_option rlp.decode_u16 o)
    old_port_lem none = refl
    old_port_lem (some b) = refl

    port_set :
        (name : Bytes) (port : ℕ) (k : K) (rng : Entropy) (e e' : Enr) {previous : Option ℕ}
        → name ≢ keys.enr_key (keys.public k)
        → port < 2 ^ 16
        → IsSorted e.content
        → (insert_raw_rlp keys k256 name (rlp.encode_uint port) k rng >>= λ prev_value.
              pure (old_port prev_value))
            e
          ≡ ret (ok previous, e')
        → (read_port name e' ≡ some port) × (previous ≡ read_port name e)
    unfolding get_decodable
    port_set name port k rng e e' {previous} ne range s h =
        let value = rlp.encode_uint port in
        let (raw, e₁, done, last) = >>=-ok (insert_raw_rlp keys k256 name value k rng) _ e e' h in
        by_result raw e₁ (inserted_value keys k256 name value k rng e e₁ ne s done) last
      where
        by_result :
            (raw : Option Bytes) (e₁ : Enr)
            → (raw ≡ get_raw_rlp e name) × (get_raw_rlp e₁ name ≡ some (rlp.encode_uint port))
            → pure (old_port raw) e₁ ≡ ret (ok previous, e')
            → (read_port name e' ≡ some port) × (previous ≡ read_port name e)
        by_result raw e₁ (was, now) last =
            let same : e' ≡ e₁ = ground arith in
            let returned : previous ≡ old_port raw = ground arith in
            (
              rw same (port_read name e₁ port range now),
              returned ∙ old_port_lem raw ∙ ap (λ o. and_then_ok (map_option rlp.decode_u16 o)) was,
            )

    -- A port of 16 bits that `set_tcp4` sets in a record whose keys ascend is what `tcp4` reads, and
    -- what it returns is what `tcp4` read before.
    pub set_tcp4-tcp4 :
        (port : ℕ) (k : K) (rng : Entropy) (e e' : Enr) {previous : Option ℕ}
        → port < 2 ^ 16
        → IsSorted e.content
        → set_tcp4 keys k256 port k rng e ≡ ret (ok previous, e')
        → (tcp4 e' ≡ some port) × (previous ≡ tcp4 e)
    unfolding set_tcp4 tcp4 insert
    set_tcp4-tcp4 port k rng e e' range s h =
        port_set tcp_key port k rng e e'
          (λ i. (key_law.enr_key-IsFree (keys.public k)).ne_tcp (sym i)) range s h

    -- A port that `set_tcp6` sets is what `tcp6` reads, and what it returns is what `tcp6` read before.
    pub set_tcp6-tcp6 :
        (port : ℕ) (k : K) (rng : Entropy) (e e' : Enr) {previous : Option ℕ}
        → port < 2 ^ 16
        → IsSorted e.content
        → set_tcp6 keys k256 port k rng e ≡ ret (ok previous, e')
        → (tcp6 e' ≡ some port) × (previous ≡ tcp6 e)
    unfolding set_tcp6 tcp6 insert
    set_tcp6-tcp6 port k rng e e' range s h =
        port_set tcp6_key port k rng e e'
          (λ i. (key_law.enr_key-IsFree (keys.public k)).ne_tcp6 (sym i)) range s h

    -- A port that `set_udp4` sets is what `udp4` reads, and what it returns is what `udp4` read before.
    pub set_udp4-udp4 :
        (port : ℕ) (k : K) (rng : Entropy) (e e' : Enr) {previous : Option ℕ}
        → port < 2 ^ 16
        → IsSorted e.content
        → set_udp4 keys k256 port k rng e ≡ ret (ok previous, e')
        → (udp4 e' ≡ some port) × (previous ≡ udp4 e)
    unfolding set_udp4 udp4 insert
    set_udp4-udp4 port k rng e e' range s h =
        port_set udp_key port k rng e e'
          (λ i. (key_law.enr_key-IsFree (keys.public k)).ne_udp (sym i)) range s h

    -- A port that `set_udp6` sets is what `udp6` reads, and what it returns is what `udp6` read before.
    pub set_udp6-udp6 :
        (port : ℕ) (k : K) (rng : Entropy) (e e' : Enr) {previous : Option ℕ}
        → port < 2 ^ 16
        → IsSorted e.content
        → set_udp6 keys k256 port k rng e ≡ ret (ok previous, e')
        → (udp6 e' ≡ some port) × (previous ≡ udp6 e)
    unfolding set_udp6 udp6 insert
    set_udp6-udp6 port k rng e e' range s h =
        port_set udp6_key port k rng e e'
          (λ i. (key_law.enr_key-IsFree (keys.public k)).ne_udp6 (sym i)) range s h
