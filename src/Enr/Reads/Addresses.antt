-- ===== src/Enr/Reads/Addresses.antt =====
-- The address getters after `set_ip`.
use enr.Prelude.{
  ℕ, ◌≤◌, ◌<◌, ◌≡◌, ◌≢◌, refl, sym, ap, ◌∙◌, Option, none, some, ok, ret, arith, length,
}
use enr.Bytes.{Bytes, ip_key, ip6_key}
use enr.BtreeMap.Laws.{IsSorted}
use enr.Crates.Rlp.{Rlp, RlpLaws}
use enr.Crates.Hashing.{Keccak256}
use enr.Keys.Traits.{Entropy, EnrKey}
use enr.Keys.Laws.{KeyLaws}
use enr.Enr.Defs.{Enr, IpAddr, v4_addr, v6_addr}
use enr.Enr.Getters.{get_raw_rlp, get, ip4, ip6}
use enr.Enr.Action.{◌>>=◌, >>=-ok, pure}
use enr.Enr.Setters.{insert, insert_raw_rlp, set_ip, previous_ip}
use enr.Enr.Reads.{inserted_value}

module _ ⦃rlp : Rlp⦄ ⦃keccak : Keccak256⦄ {K P S V : Type 0} (keys : EnrKey K P)
    (k256 : EnrKey S V) where
  module _ (law : RlpLaws rlp) (key_law : KeyLaws keys) where
    -- what `set_ip` returns of an address that was stored
    short_address :
        (addr : Bytes → IpAddr) (size : ℕ) (old : Bytes)
        → 2 ≤ size
        → size < 56
        → length old ≡ size
        → previous_ip addr size (some (rlp.encode_bytes old)) ≡ none
    short_address addr size old low high is_size =
        let long =
          law.length-encode_bytes_short old (omega (arith, is_size)) (omega (arith, is_size)) in
        ground (arith, is_size, long)

    address_set :
        (name octets : Bytes) (addr : Bytes → IpAddr) (size : ℕ) (k : K) (rng : Entropy)
        (e e' : Enr) {previous : Option IpAddr}
        → name ≢ keys.enr_key (keys.public k)
        → IsSorted e.content
        → (insert_raw_rlp keys k256 name (rlp.encode_bytes octets) k rng >>= λ prev_value.
              pure (previous_ip addr size prev_value))
            e
          ≡ ret (ok previous, e')
        → (get e' name ≡ ret (some octets))
          × (previous ≡ previous_ip addr size (get_raw_rlp e name))
    unfolding get
    address_set name octets addr size k rng e e' {previous} ne s h =
        let value = rlp.encode_bytes octets in
        let (raw, e₁, done, last) = >>=-ok (insert_raw_rlp keys k256 name value k rng) _ e e' h in
        by_result raw e₁ (inserted_value keys k256 name value k rng e e₁ ne s done) last
      where
        by_result :
            (raw : Option Bytes) (e₁ : Enr)
            → (raw ≡ get_raw_rlp e name) × (get_raw_rlp e₁ name ≡ some (rlp.encode_bytes octets))
            → pure (previous_ip addr size raw) e₁ ≡ ret (ok previous, e')
            → (get e' name ≡ ret (some octets))
              × (previous ≡ previous_ip addr size (get_raw_rlp e name))
        by_result raw e₁ (was, now) last =
            let same : e' ≡ e₁ = ground arith in
            let returned : previous ≡ previous_ip addr size raw = ground arith in
            (
              rw same (rw (now, get) (rw (law.data_of-encode_bytes octets) refl)),
              returned ∙ ap (previous_ip addr size) was,
            )

    -- An IPv4 address that `set_ip` sets in a record whose keys ascend and that stores another one is
    -- what `ip4` reads, and `set_ip` returns no previous address. The key type keeps the promises of
    -- the traits.
    pub set_ip-ip4 :
        (octets old : Bytes) (k : K) (rng : Entropy) (e e' : Enr) {previous : Option IpAddr}
        → length octets ≡ 4
        → length old ≡ 4
        → IsSorted e.content
        → get_raw_rlp e ip_key ≡ some (rlp.encode_bytes old)
        → set_ip keys k256 (v4_addr octets) k rng e ≡ ret (ok previous, e')
        → (ip4 e' ≡ ret (some octets)) × (previous ≡ none)
    unfolding set_ip ip4 insert
    set_ip-ip4 octets old k rng e e' size old_size s stored h =
        let (now, returned) =
          address_set ip_key octets v4_addr 4 k rng e e'
            (λ i. (key_law.enr_key-IsFree (keys.public k)).ne_ip (sym i)) s h in
        (
          rw now (ground (arith, size)),
          returned
              ∙ ap (previous_ip v4_addr 4) stored
              ∙ short_address v4_addr 4 old (omega arith) (omega arith) old_size,
        )

    -- An IPv6 address that `set_ip` sets in a record that stores another one is what `ip6` reads,
    -- and `set_ip` returns no previous address.
    pub set_ip-ip6 :
        (octets old : Bytes) (k : K) (rng : Entropy) (e e' : Enr) {previous : Option IpAddr}
        → length octets ≡ 16
        → length old ≡ 16
        → IsSorted e.content
        → get_raw_rlp e ip6_key ≡ some (rlp.encode_bytes old)
        → set_ip keys k256 (v6_addr octets) k rng e ≡ ret (ok previous, e')
        → (ip6 e' ≡ ret (some octets)) × (previous ≡ none)
    unfolding set_ip ip6 insert
    set_ip-ip6 octets old k rng e e' size old_size s stored h =
        let (now, returned) =
          address_set ip6_key octets v6_addr 16 k rng e e'
            (λ i. (key_law.enr_key-IsFree (keys.public k)).ne_ip6 (sym i)) s h in
        (
          rw now (ground (arith, size)),
          returned
              ∙ ap (previous_ip v6_addr 16) stored
              ∙ short_address v6_addr 16 old (omega arith) (omega arith) old_size,
        )
