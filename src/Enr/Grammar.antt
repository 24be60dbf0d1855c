-- ===== src/Enr/Grammar.antt =====
-- The bytes that are records, described without the decoder of src/lib.rs: the format of
-- EIP-778 with the checks that `Decodable for Enr` names.
pub mod Items
pub mod Accepts
pub mod Text
use enr.Prelude.{
  ℕ, ◌%◌, ◌≤◌, ◌≡◌, ◌≢◌, ◌⊎◌, List, [], ◌∷◌, true, Option, none, some, ok, ret, length,
}
use enr.Bytes.{Bytes, tcp_key, tcp6_key, udp_key, udp6_key}
use enr.Bytes.Laws.{◌≺◌}
use enr.Crates.Rlp.{Rlp, IsItem}
use enr.Crates.Hashing.{Keccak256}
use enr.NodeId.{of_public_key}
use enr.Keys.Traits.{Content, EnrKey}
use enr.Enr.Defs.{Enr, max_enr_size}
use enr.Enr.Encode.{verify}

abbrev pub IsPortKey : Bytes → Type 0
IsPortKey key = (key ≡ tcp_key) ⊎ (key ≡ tcp6_key) ⊎ (key ≡ udp_key) ⊎ (key ≡ udp6_key)

-- The keys ascend: each lies above the one before it.
abbrev pub Follows : Option Bytes → Bytes → Type 0
Follows none key = Unit
Follows (some previous) key = previous ≺ key

module _ ⦃rlp : Rlp⦄ where
  -- What may stand under a key: a port under the four keys of ports, and under all others a
  -- value that `Rlp::data` reads, be it a byte string or a list.
  pub data Admits : Bytes → Bytes → Type 0 where
    port :
        {key value : Bytes} {n : ℕ} → IsPortKey key → rlp.decode_u16 value ≡ ok n → Admits key value
    bytes :
        {key value d : Bytes} → (IsPortKey key → ⊥) → rlp.data_of value ≡ ok d → Admits key value

  -- The items after the sequence number are the pairs of this content, above `previous`.
  pub data Pairs : Option Bytes → List Bytes → Content → Type 0 where
    no_pair : {previous : Option Bytes} → Pairs previous [] []
    pair :
        {previous : Option Bytes} {k key value : Bytes} {items : List Bytes} {rest : Content}
        → rlp.data_of k ≡ ok key
        → Admits key value
        → Follows previous key
        → Pairs (some key) items rest
        → Pairs previous (k ∷ value ∷ items) ((key, value) ∷ rest)

  -- One list of at most 300 bytes and nothing after it: signature, sequence number, pairs.
  pub record IsRecord (raw signature : Bytes) (seq : ℕ) (content : Content) : Type 0 where
    pub small : length raw ≤ max_enr_size
    pub list : rlp.is_list raw ≡ true
    pub whole : IsItem raw
    pub some_item : rlp.iter_len raw ≢ 0
    pub even : rlp.iter_len raw % 2 ≡ 0
    pub signature_item : Bytes
    pub seq_item : Bytes
    pub pair_items : List Bytes
    pub items : rlp.iter raw ≡ signature_item ∷ seq_item ∷ pair_items
    pub signature_data : rlp.data_of signature_item ≡ ok signature
    pub seq_data : rlp.decode_u64 seq_item ≡ ok seq
    pub pairs : Pairs none pair_items content

  -- The bytes are this record: a public key is known, the record is named by it, and it verifies.
  pub record Denotes ⦃keccak : Keccak256⦄ {K P : Type 0} (keys : EnrKey K P) (raw : Bytes) (e : Enr)
      : Type 0 where
    pub form : IsRecord raw e.signature e.seq e.content
    pub public : P
    pub known : keys.enr_to_public e.content ≡ ok public
    pub identified : of_public_key keys.public_key public ≡ ret e.node_id
    pub verified : verify keys e ≡ ret true
