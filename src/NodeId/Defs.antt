-- ===== src/NodeId/Defs.antt =====
-- src/node_id.rs, and `digest` of src/lib.rs.
use Prim.Native.Nat.{min}
use enr.Prelude.{
  ◌-◌, [], ◌∷◌, ◌++◌, Bool, ltb, if◌then◌else◌, length, take, drop, replicate, Result, ok, err,
  Panics, expect,
}
use enr.Prelude.Panicking.{◌>>=◌}
use enr.Bytes.{Bytes, text, ◌==◌}
use enr.Crates.Hashing.{Keccak256}
use enr.Crates.Text.{Hex}
use enr.Keys.Traits.{EnrPublicKey}

-- `raw` is a `[u8; 32]`.
pub record NodeId : Type 0 where
  pub raw : Bytes

unfoldable pub new : Bytes → NodeId
new raw_input = record { raw = raw_input }

unfoldable pub parse : Bytes → Result Bytes NodeId
parse raw_input =
    if ltb 32 (length raw_input)
    then err (text "Input too large")
    else ok (record { raw = raw_input ++ drop (min 32 (length raw_input)) (replicate 32 0) })

-- `rand::random` gives the bytes that it draws.
unfoldable pub random : Bytes → NodeId
random drawn = record { raw = drawn }

unfoldable pub raw : NodeId → Bytes
raw n = n.raw

-- `From<RawNodeId>`
unfoldable pub of_raw : Bytes → NodeId
of_raw bytes = record { raw = bytes }

-- `PartialEq<RawNodeId>`
unfoldable pub raw_eq : NodeId → Bytes → Bool
raw_eq n other = n.raw == other

-- `PartialEq`, derived
abbrev pub node_id_eq : NodeId → NodeId → Bool
node_id_eq a b = a.raw == b.raw

-- `AsRef<[u8]>`
unfoldable pub as_ref : NodeId → Bytes
as_ref n = n.raw

-- `digest` of lib.rs; the array that is copied has 32 bytes by its type.
unfoldable pub digest : ⦃h : Keccak256⦄ → Bytes → Bytes
digest ⦃h⦄ b = h.hash b

-- `From<T: EnrPublicKey>`
unfoldable pub of_public_key : ⦃h : Keccak256⦄ → {P : Type 0} → EnrPublicKey P → P → Panics NodeId
unfolding digest parse
of_public_key ops public_key = do
  key ← ops.encode_uncompressed public_key
  expect (parse (digest key))

module _ ⦃hex : Hex⦄ where
  -- `Display`; the slices are in range, since the encoding has 64 digits.
  unfoldable pub display : NodeId → Bytes
  display n =
      let digits = hex.encode n.raw in
      text "0x" ++ (take 4 digits ++ (text ".." ++ drop (length digits - 4) digits))

  -- `Debug`
  unfoldable pub debug : NodeId → Bytes
  debug n = text "0x" ++ hex.encode n.raw

  -- `serde_hex_prfx::serialize`: the text handed to the serializer
  unfoldable pub serialize : NodeId → Bytes
  serialize n = text "0x" ++ hex.encode n.raw

  -- `raw.strip_prefix(b"0x").unwrap_or(raw)`
  unfoldable pub strip_0x : Bytes → Bytes
  strip_0x [] = []
  strip_0x (a ∷ []) = a ∷ []
  strip_0x (a ∷ b ∷ rest) = if (a ∷ b ∷ []) == text "0x" then rest else a ∷ b ∷ rest

  -- `serde_hex_prfx::deserialize`, from the text that the deserializer returns
  unfoldable pub deserialize : Bytes → Result Bytes NodeId
  unfolding strip_0x
  deserialize raw = elim (hex.from_hex_32 (strip_0x raw)) [
    | ok b ↦ ok (record { raw = b })
    | err e ↦ err e
  ]
