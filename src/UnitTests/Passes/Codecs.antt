-- ===== src/UnitTests/Passes/Codecs.antt =====
-- The tests that send a record and read it, over any crates.
use enr.Prelude.{ℕ, ◌^◌, ◌≤◌, ◌<◌, ◌≡◌, refl, sym, [], ◌∷◌, true, some, ok, ret, arith, length}
use enr.Bytes.{Bytes, compare_bytes, ip_key, tcp_key, v4}
use enr.Bytes.Laws.{compare_refl}
use enr.BtreeMap
use enr.Crates.Rlp.{Rlp, RlpLaws}
use enr.Crates.Hashing.{Keccak256, KeccakLaws}
use enr.Keys.Traits.{Entropy, EnrKey}
use enr.Keys.Laws.{KeyLaws, IsUnambiguous, IsCompact}
use enr.Enr.Defs.{Enr, max_enr_size}
use enr.Enr.Getters.{id, ip4, tcp4, get_raw_rlp}
use enr.Enr.Encode.{encode, public_key, verify, size}
use enr.Enr.Decode.{decode}
use enr.Enr.RoundTrip.{decode-encode}
use enr.Enr.Room.{size_le}
use enr.Enr.Reads.Stored.{read_address_iff, read_port_iff}
use enr.Builder
use enr.Builder.{builder, default, add_value, add_value_rlp}
use enr.UnitTests.Codecs.{
  built, check_decoded, test_encode_decode_secp256k1, test_encode_decode_k256,
}
use enr.UnitTests.Passes.{IsStarted, started, kept, builder-IsLight, tcp4-IsLight, ip4-IsLight}

module _ ⦃rlp : Rlp⦄ (law : RlpLaws rlp) where
  pub ip4_stored :
      (octets : Bytes) (e : Enr)
      → length octets ≡ 4
      → BtreeMap.get ip_key e.content ≡ some (rlp.encode_bytes octets)
      → ip4 e ≡ ret (some octets)
  unfolding ip4 get_raw_rlp
  ip4_stored octets e sized stored = (read_address_iff 4 ip_key octets e).1 (record {
    raw = rlp.encode_bytes octets;
    stored = stored;
    decoded = law.data_of-encode_bytes octets;
    is_size = sized;
  })

  pub tcp4_stored :
      (port : ℕ) (e : Enr)
      → port < 2 ^ 16
      → BtreeMap.get tcp_key e.content ≡ some (rlp.encode_uint port)
      → tcp4 e ≡ some port
  unfolding tcp4 get_raw_rlp
  tcp4_stored port e range stored = (read_port_iff tcp_key port e).1 (record {
    raw = rlp.encode_uint port;
    stored = stored;
    decoded = law.decode_u16-encode_uint port range;
  })

  -- The assertions on a decoded record hold of what was stored.
  pub check_decoded_passes :
      {K P : Type 0} (keys : EnrKey K P) (e : Enr) (ip : Bytes) (tcp : ℕ) (p : P)
      → id e ≡ ret (some v4)
      → ip4 e ≡ ret (some ip)
      → tcp4 e ≡ some tcp
      → public_key keys e ≡ ret p
      → verify keys e ≡ ret true
      → check_decoded keys e ip tcp (keys.encode p) ≡ ret tt
  unfolding check_decoded
  check_decoded_passes keys e ip tcp p scheme address port owner valid =
      rw (scheme, address, port, owner, valid)
        (ground (arith, compare_refl v4, compare_refl ip, compare_refl (keys.encode p)))

  module _ ⦃keccak : Keccak256⦄ {K P : Type 0} (keys : EnrKey K P) (compact : IsCompact keys)
      (keccak_law : KeccakLaws keccak) (key_law : KeyLaws keys) (own : IsUnambiguous keys) (key : K)
      (signs : (rng : Entropy) (msg : Bytes)
        → (sig : Bytes) × (keys.sign_v4 rng key msg ≡ ok sig)) where
    -- A record with an address and a port, as it is sent.
    pub record IsSent (ip : Bytes) (tcp : ℕ) (e : Enr) : Type 0 where
      pub start :
          IsStarted law keys compact keccak_law key_law own key signs
            (Builder.tcp4 tcp (Builder.ip4 ip builder))
            e
      pub address : ip4 e ≡ ret (some ip)
      pub port : tcp4 e ≡ some tcp
      pub small : size e ≤ max_enr_size

    pub sent :
        (ip : Bytes) (tcp : ℕ) (rng : Entropy)
        → length ip ≡ 4
        → tcp < 2 ^ 16
        → (e : Enr) × (built keys key rng (Builder.tcp4 tcp (Builder.ip4 ip builder)) ≡ ret e)
          × IsSent ip tcp e
    unfolding Builder.tcp4 Builder.ip4 builder default add_value add_value_rlp BtreeMap.insert
        BtreeMap.get compare_bytes
    sent ip tcp rng sized range =
        let b = Builder.tcp4 tcp (Builder.ip4 ip builder) in
        let light = tcp4-IsLight law tcp _ _ range (ip4-IsLight law ip _ _ sized builder-IsLight) in
        let (e, builds, s) =
          started law keys compact keccak_law key_law own key signs 30 rng b (omega arith) light in
        let free = key_law.enr_key-IsFree (keys.public key) in
        let ip_kept =
          kept law keys compact keccak_law key_law own key signs ip_key b e (λ i. ground (arith, i))
            (λ i. free.ne_ip (sym i)) s in
        let tcp_kept =
          kept law keys compact keccak_law key_law own key signs tcp_key b e
            (λ i. ground (arith, i)) (λ i. free.ne_tcp (sym i)) s in
        (
          e,
          builds,
          record {
            start = s;
            address = ip4_stored ip e sized ip_kept;
            port = tcp4_stored tcp e range tcp_kept;
            small = omega (
              arith,
              s.light,
              light.light,
              size_le law e s.short (omega (arith, s.counted))
                  (omega (arith, s.light, light.light)),
            );
          },
        )

    sent_read :
        (ip : Bytes) (tcp : ℕ) (e : Enr)
        → IsSent ip tcp e
        → (decode keys (encode e) ≡ ret (ok e))
          × (check_decoded keys e ip tcp (keys.encode (keys.public key)) ≡ ret tt)
    sent_read ip tcp e s =
        let o = s.start.owned in
        (
          decode-encode law keys e o.valid s.small,
          check_decoded_passes keys e ip tcp (keys.public key) s.start.scheme s.address s.port
              o.owner o.valid.verified,
        )

    pub test_encode_decode_secp256k1_passes :
        (rng : Entropy) → test_encode_decode_secp256k1 keys key rng ≡ ret tt
    unfolding test_encode_decode_secp256k1
    test_encode_decode_secp256k1_passes rng =
        let ip = 127 ∷ 0 ∷ 0 ∷ 1 ∷ [] in
        let (e, builds, s) = sent ip 3000 rng refl (omega arith) in
        let (read, checked) = sent_read ip 3000 e s in rw (builds, read, checked) refl

    pub test_encode_decode_k256_passes :
        (rng : Entropy) → test_encode_decode_k256 keys key rng ≡ ret tt
    unfolding test_encode_decode_k256
    test_encode_decode_k256_passes rng =
        let ip = 127 ∷ 0 ∷ 0 ∷ 1 ∷ [] in
        let (e, builds, s) = sent ip 3000 rng refl (omega arith) in
        let (read, checked) = sent_read ip 3000 e s in
        let (_, whole) = key_law.encode_uncompressed_total (keys.public key) in
        rw (builds, read, checked, s.start.owned.owner, whole) refl
