-- ===== src/Enr/Reads.antt =====
-- The getters after the setters.
pub mod Ports
pub mod Addresses
pub mod PublicKey
pub mod Sockets
pub mod Stored
pub mod Typed
pub mod Reachable
use enr.Prelude.{
  ℕ, ◌+◌, ◌^◌, ◌≤◌, ◌<◌, ◌≡◌, ◌≢◌, refl, sym, ap, ◌∙◌, Bool, true, false, Bool-cases, inl, inr,
  Option, none, some, Result, ok, err, Panics, ret, panic, arith, length, ltb, if◌then◌else◌,
}
use enr.Bytes.{
  Bytes, text, compare_bytes, ◌==◌, ip_key, ip6_key, tcp_key, tcp6_key, udp_key, udp6_key,
  secp256k1_key,
}
use enr.Bytes.Laws.{compare_refl, eq_of_compare}
use enr.BtreeMap.Laws.{IsSorted}
use enr.Crates.Rlp.{Rlp, RlpLaws, DecoderError, custom, rlp_expected_to_be_list}
use enr.Crates.Hashing.{Keccak256}
use enr.Error.{EnrError, invalid_rlp_data}
use enr.Keys.Traits.{Entropy, EnrKey}
use enr.Keys.Laws.{KeyLaws}
use enr.Prelude.Fallible.{to_option}
use enr.Enr.Defs.{Enr, max_enr_size, IpAddr, v4_addr, v6_addr}
use enr.Enr.Getters.{
  get_raw_rlp, get_decodable, map_option, get, tcp4, tcp6, udp4, udp6, ip4, ip6, and_then_ok,
}
use enr.Enr.Decode.{decode, read_record, check_frame, is_keyof_u16}
use enr.Enr.Reserved.{check_spec_reserved_keys}
use enr.Enr.Action.{◌>>=◌, >>=-ok, pure}
use enr.Enr.Setters.{
  insert, insert_raw_rlp, set_ip, set_tcp4, set_tcp6, set_udp4, set_udp6, set_public_key,
  previous_ip,
}
use enr.Enr.Update.{insert_raw_rlp-get_raw_rlp}

module _ ⦃rlp : Rlp⦄ ⦃keccak : Keccak256⦄ {K P S V : Type 0} (keys : EnrKey K P)
    (k256 : EnrKey S V) where
  -- What is read under a key that is not the public key's.
  pub inserted_value :
      (key value : Bytes) (k : K) (rng : Entropy) (e e' : Enr) {previous : Option Bytes}
      → key ≢ keys.enr_key (keys.public k)
      → IsSorted e.content
      → insert_raw_rlp keys k256 key value k rng e ≡ ret (ok previous, e')
      → (previous ≡ get_raw_rlp e key) × (get_raw_rlp e' key ≡ some value)
  inserted_value key value k rng e e' ne s h =
      let (was, _, now) = insert_raw_rlp-get_raw_rlp keys k256 key value k rng e e' key s h in
      let other : (key == keys.enr_key (keys.public k)) ≡ false =
        ground (arith, eq_of_compare key (keys.enr_key (keys.public k))) in
      let same : (key == key) ≡ true = ground (arith, compare_refl key) in
      (was, now ∙ rw (other, same) refl)
