-- ===== src/Enr/Valid.antt =====
-- The invariant of a record, and that a signed update of a sound content restores it.
use enr.Prelude.{
  ◌^◌, ◌<◌, ◌≡◌, refl, true, false, some, Result, ok, err, ret, ℕ, All, arith, Option, none,
}
use enr.Bytes.{Bytes, tcp_key, tcp6_key, udp_key, udp6_key}
use enr.Bytes.Laws.{eq_of_compare}
use enr.BtreeMap
use enr.BtreeMap.Laws.{IsSorted, insert-IsSorted, All-insert, All-get}
use enr.Crates.Rlp.{Rlp, RlpLaws, IsItem, DecoderError}
use enr.Crates.Hashing.{Keccak256}
use enr.NodeId.{of_public_key}
use enr.Keys.Traits.{Content, EnrKey}
use enr.Keys.Laws.{KeyLaws, IsUnambiguous, IsFree, Stores}
use enr.Enr.Defs.{Enr}
use enr.Enr.Getters.{get}
use enr.Enr.Encode.{verify, public_key}
use enr.Enr.Decode.{is_keyof_u16, sanitize}
use enr.Enr.Commit.{IsSigned, IsCommitted, verify-IsSigned}

-- A key that is none of the four ports'.
pub is_keyof_u16-IsFree : (key : Bytes) → IsFree key → is_keyof_u16 key ≡ false
unfolding is_keyof_u16
is_keyof_u16-IsFree key f = ground (
  arith,
  f.ne_tcp,
  f.ne_tcp6,
  f.ne_udp,
  f.ne_udp6,
  eq_of_compare key tcp_key,
  eq_of_compare key tcp6_key,
  eq_of_compare key udp_key,
  eq_of_compare key udp6_key,
)

module _ ⦃rlp : Rlp⦄ where
  -- The value is one RLP item that the key admits.
  pub record IsSoundEntry (key value : Bytes) : Type 0 where
    pub sanitized : sanitize key value ≡ ok tt
    pub item : IsItem value

  abbrev pub Entry : Bytes × Bytes → Type 0
  Entry (k, v) = IsSoundEntry k v

  pub record IsSound (content : Content) : Type 0 where
    pub sorted : IsSorted content
    pub entries : All Entry content

  pub insert-IsSound :
      (key value : Bytes) (content : Content)
      → IsSoundEntry key value
      → IsSound content
      → IsSound (BtreeMap.insert key value content)
  insert-IsSound key value content s c = record {
    sorted = insert-IsSorted key value content c.sorted;
    entries = All-insert Entry key value content s c.entries;
  }

  pub data_of-sanitize :
      (law : RlpLaws rlp) (key value : Bytes)
      → sanitize key value ≡ ok tt
      → (d : Bytes) × (rlp.data_of value ≡ ok d)
  unfolding sanitize
  data_of-sanitize law key value s = by_data (rlp.data_of value) refl (rlp.decode_u16 value) refl
    where
      by_data :
          (r : Result DecoderError Bytes)
          → rlp.data_of value ≡ r
          → (p : Result DecoderError ℕ) → rlp.decode_u16 value ≡ p
          → (d : Bytes) × (rlp.data_of value ≡ ok d)
      by_data (ok d) i p j = (d, i)
      by_data (err x) i (ok n) j = law.data_of-decode_u16 value j
      by_data (err x) i (err y) j = absurd (ground arith)

  -- The `expect` of `get` does not panic on a record with sound content.
  pub get_total :
      (law : RlpLaws rlp) (e : Enr) (key : Bytes)
      → IsSound e.content
      → (o : Option Bytes) × (get e key ≡ ret o)
  unfolding get
  get_total law e key s = by_entry (BtreeMap.get key e.content) refl
    where
      by_entry :
          (r : Option Bytes)
          → BtreeMap.get key e.content ≡ r
          → (o : Option Bytes) × (get e key ≡ ret o)
      by_entry none i = (none, ground arith)
      by_entry (some v) i =
          let (d, is_data) =
            data_of-sanitize law key v
              (All-get Entry key {v = v} e.content s.entries i).sanitized in
          (some d, ground (arith, is_data))

  -- What the record of lib.rs promises of itself: "a valid signature, known public key type,
  -- sequence number and NodeId", and data that has been sanitized.
  pub record IsValid ⦃keccak : Keccak256⦄ {K P : Type 0} (keys : EnrKey K P) (e : Enr)
      : Type 0 where
    pub seq_range : e.seq < 2 ^ 64
    pub sound : IsSound e.content
    pub public : P
    pub known : keys.enr_to_public e.content ≡ ok public
    pub identified : of_public_key keys.public_key public ≡ ret e.node_id
    pub verified : verify keys e ≡ ret true

  -- A valid record whose public key is that of the key.
  pub record IsOwned ⦃keccak : Keccak256⦄ {K P : Type 0} (keys : EnrKey K P) (k : K) (e : Enr)
      : Type 0 where
    pub valid : IsValid keys e
    pub owner : public_key keys e ≡ ret (keys.public k)

  module _ ⦃keccak : Keccak256⦄ {K P : Type 0} (keys : EnrKey K P) (key_law : KeyLaws keys) where
    -- A record that is signed, and stores the signer's key, is the signer's.
    pub signed-IsOwned :
        (own : IsUnambiguous keys) (k : K) (e : Enr)
        → e.seq < 2 ^ 64
        → IsSound e.content
        → Stores keys (keys.public k) e.content
        → IsSigned keys k e
        → of_public_key keys.public_key (keys.public k) ≡ ret e.node_id
        → IsOwned keys k e
    unfolding public_key
    signed-IsOwned own k e range s stored signed named =
        let known = own.enr_to_public_lem (keys.public k) e.content stored in
        record {
          valid = record {
            seq_range = range;
            sound = s;
            public = keys.public k;
            known = known;
            identified = named;
            verified = verify-IsSigned keys key_law k e signed known;
          };
          owner = rw known refl;
        }

  module _ (law : RlpLaws rlp) where
    pub encode_bytes-IsSoundEntry :
        (key b : Bytes) → is_keyof_u16 key ≡ false → IsSoundEntry key (rlp.encode_bytes b)
    unfolding sanitize
    encode_bytes-IsSoundEntry key b f = record {
      sanitized = ground (arith, law.data_of-encode_bytes b);
      item = law.encode_bytes-IsItem b;
    }

    -- A port is a sound value under every key.
    pub encode_uint-IsSoundEntry :
        (key : Bytes) (port : ℕ) → port < 2 ^ 16 → IsSoundEntry key (rlp.encode_uint port)
    unfolding sanitize
    encode_uint-IsSoundEntry key port h =
        let string = law.encode_uint_bytes port in
        record {
          sanitized = ground (
            arith,
            law.decode_u16-encode_uint port h,
            string,
            law.data_of-encode_bytes (law.uint_digits port),
          );
          item = rw string (law.encode_bytes-IsItem (law.uint_digits port));
        }

    module _ ⦃keccak : Keccak256⦄ {K P : Type 0} (keys : EnrKey K P) (key_law : KeyLaws keys) where
      -- The value under which a public key is stored.
      abbrev pub public_key_value : P → Bytes
      public_key_value p = rlp.encode_bytes (keys.encode p)

      pub public_key-IsSoundEntry : (p : P) → IsSoundEntry (keys.enr_key p) (public_key_value p)
      public_key-IsSoundEntry p =
          encode_bytes-IsSoundEntry (keys.enr_key p) (keys.encode p)
            (is_keyof_u16-IsFree _ (key_law.enr_key-IsFree p))

      -- A signed update of a sound content that stores the signer's key is valid and the signer's.
      pub IsCommitted-IsOwned :
          (own : IsUnambiguous keys) (k : K) (e e' : Enr)
          → IsSound e.content
          → Stores keys (keys.public k) e.content
          → IsCommitted keys k e e'
          → IsOwned keys k e'
      IsCommitted-IsOwned own k e e' s stored c =
          signed-IsOwned keys key_law own k e' c.seq_range (rw c.same s) (rw c.same stored) c.signed
            c.identified
