-- ===== src/UnitTests/Passes.antt =====
-- The records that the unit tests start from.
pub mod Codecs
pub mod Updates
pub mod Ports
pub mod Insertions
pub mod Batches
pub mod Large
pub mod Compare
pub mod NodeIds
pub mod Vectors
pub mod Mixed
pub mod Records
pub mod Topics
pub mod Suite
use enr.Prelude.{
  ℕ, ◌+◌, ◌^◌, ◌≤◌, ◌<◌, ◌≡◌, ◌≢◌, refl, sym, ap, ◌∙◌, [], ◌∷◌, some, none, Option, ok, ret, arith,
  length,
}
use enr.Prelude.Panicking.{◌>>=◌}
use enr.Bytes.{Bytes, compare_bytes, id_key, ip_key, tcp_key, udp_key, v4}
use enr.BtreeMap
use enr.BtreeMap.Laws.{get-insert_ne}
use enr.Crates.Rlp.{Rlp, RlpLaws}
use enr.Crates.Hashing.{Keccak256, KeccakLaws}
use enr.Keys.Traits.{Entropy, EnrKey}
use enr.Keys.Laws.{KeyLaws, IsUnambiguous, IsCompact}
use enr.Enr.Defs.{Enr}
use enr.Enr.Getters.{id}
use enr.Enr.Decode.{is_keyof_u16}
use enr.Enr.RoundTrip.{pair_items}
use enr.Enr.Valid.{
  IsSound, IsOwned, insert-IsSound, encode_bytes-IsSoundEntry, encode_uint-IsSoundEntry,
}
use enr.Enr.Room.{weight, weight-insert, length-encode_uint_le}
use enr.Builder
use enr.Builder.{build, builder, default, add_value, add_value_rlp, add_public_key}
use enr.Builder.Finish.{prepared}
use enr.Builder.Laws.{build-IsOwned}
use enr.Builder.Room.{build_fits, weight-prepared}
use enr.UnitTests.Assert.{unwrap}
use enr.UnitTests.Codecs.{built}

module _ ⦃rlp : Rlp⦄ where
  -- A builder as the tests fill it, with pairs of at most `n` bytes.
  pub record IsLight (n : ℕ) (b : Builder.Builder) : Type 0 where
    pub scheme : b.id ≡ v4
    pub counted : b.seq ≡ 1
    pub sound : IsSound b.content
    pub light : weight b.content ≤ n

  pub builder-IsLight : IsLight 0 builder
  unfolding builder default pair_items
  builder-IsLight = record {
    scheme = refl;
    counted = refl;
    sound = record { sorted = tt; entries = tt };
    light = omega arith;
  }

  module _ (law : RlpLaws rlp) where
    port-IsLight :
        (name : Bytes) (port n : ℕ) (b : Builder.Builder)
        → length name ≤ 4
        → port < 2 ^ 16
        → IsLight n b
        → IsLight (n + 18) (add_value rlp.encode_uint name port b)
    unfolding add_value add_value_rlp
    port-IsLight name port n b short range l = record {
      scheme = l.scheme;
      counted = l.counted;
      sound =
          insert-IsSound name (rlp.encode_uint port) b.content
            (encode_uint-IsSoundEntry law name port range) l.sound;
      light = omega (
        arith,
        l.light,
        short,
        length-encode_uint_le law port (omega (arith, range)),
        weight-insert law name (rlp.encode_uint port) b.content (omega (arith, short)),
      );
    }

    pub tcp4-IsLight :
        (port n : ℕ) (b : Builder.Builder)
        → port < 2 ^ 16
        → IsLight n b
        → IsLight (n + 18) (Builder.tcp4 port b)
    unfolding Builder.tcp4
    tcp4-IsLight port n b = port-IsLight tcp_key port n b (omega arith)

    pub udp4-IsLight :
        (port n : ℕ) (b : Builder.Builder)
        → port < 2 ^ 16
        → IsLight n b
        → IsLight (n + 18) (Builder.udp4 port b)
    unfolding Builder.udp4
    udp4-IsLight port n b = port-IsLight udp_key port n b (omega arith)

    pub ip4-IsLight :
        (octets : Bytes) (n : ℕ) (b : Builder.Builder)
        → length octets ≡ 4
        → IsLight n b
        → IsLight (n + 12) (Builder.ip4 octets b)
    unfolding Builder.ip4 add_value add_value_rlp
    ip4-IsLight octets n b sized l = record {
      scheme = l.scheme;
      counted = l.counted;
      sound =
          insert-IsSound ip_key (rlp.encode_bytes octets) b.content
            (encode_bytes-IsSoundEntry law ip_key octets
              (unfold is_keyof_u16 compare_bytes in refl))
            l.sound;
      light = omega (
        arith,
        l.light,
        sized,
        law.length-encode_bytes_le octets (omega (arith, sized)),
        weight-insert law ip_key (rlp.encode_bytes octets) b.content (omega arith),
      );
    }

    module _ ⦃keccak : Keccak256⦄ {K P : Type 0} (keys : EnrKey K P) (compact : IsCompact keys)
        (keccak_law : KeccakLaws keccak) (key_law : KeyLaws keys) (own : IsUnambiguous keys)
        (key : K)
        (signs : (rng : Entropy) (msg : Bytes)
          → (sig : Bytes) × (keys.sign_v4 rng key msg ≡ ok sig)) where
      -- The record of such a builder.
      pub record IsStarted (b : Builder.Builder) (e : Enr) : Type 0 where
        pub owned : IsOwned keys key e
        pub scheme : id e ≡ ret (some v4)
        pub counted : e.seq ≡ 1
        pub same : e.content ≡ (prepared keys key b).content
        pub short : length e.signature ≤ 64
        pub light : weight e.content ≤ weight b.content + 58

      pub started :
          (n : ℕ) (rng : Entropy) (b : Builder.Builder)
          → n ≤ 156
          → IsLight n b
          → (e : Enr) × (built keys key rng b ≡ ret e) × IsStarted b e
      started n rng b room l =
          let range : b.seq < 2 ^ 64 = omega (arith, l.counted) in
          let (e, builds, content, seq, short) =
            build_fits law keys compact keccak_law key_law key rng b l.scheme range l.sound
              (omega (arith, l.light, room)) (signs rng) in
          let (owned, _, _, scheme) =
            build-IsOwned keys law key_law own key rng b (prepared keys key b) e l.sound range
              builds in
          (
            e,
            rw builds refl,
            record {
              owned = owned;
              scheme = scheme;
              counted = seq ∙ l.counted;
              same = content;
              short = short;
              light = omega (
                arith,
                ap weight content,
                weight-prepared law keys compact keccak_law key_law key b l.scheme,
              );
            },
          )

      -- What the builder stored is stored.
      pub kept :
          (name : Bytes) (b : Builder.Builder) (e : Enr)
          → name ≢ id_key
          → name ≢ keys.enr_key (keys.public key)
          → IsStarted b e
          → BtreeMap.get name e.content ≡ BtreeMap.get name b.content
      unfolding add_public_key add_value_rlp
      kept name b e ne_id ne_own s =
          ap (BtreeMap.get name) s.same
          ∙ get-insert_ne (keys.enr_key (keys.public key)) name _ _ ne_own
          ∙ get-insert_ne id_key name _ b.content ne_id
