-- ===== src/Enr/Encode.antt =====
-- What is signed and what is sent: the RLP of a record, its text, and the check of its signature.
use enr.Prelude.{
  ℕ, ◌+◌, ◌*◌, [], ◌∷◌, ◌++◌, Bool, true, false, ◌&&◌, none, some, Panics, ret, expect, length,
  if◌then◌else◌,
}
use enr.Prelude.{◌==◌ as nat_eq}
use enr.Prelude.Panicking.{◌>>=◌}
use enr.Bytes.{Bytes, text, v4, ◌==◌}
use enr.BtreeMap
use enr.Crates.Rlp.{Rlp, RlpStream, begin_list, append_raw}
use enr.Crates.Text.{Base64}
use enr.NodeId.{node_id_eq}
use enr.Keys.Traits.{Content, EnrKey}
use enr.Enr.Defs.{Enr}
use enr.Enr.Getters.{id}

module _ ⦃rlp : Rlp⦄ where
  -- `for (k, v) in &self.content`
  unfoldable pub append_pairs : Content → RlpStream → RlpStream
  append_pairs [] s = s
  append_pairs ((k, v) ∷ content) s =
      append_pairs content (append_raw v (append_raw (rlp.encode_bytes k) s))

  -- on a fresh stream
  unfoldable pub append_rlp_content : Enr → Bool → RlpStream
  unfolding append_pairs
  append_rlp_content e include_signature =
      let signed : ℕ = if include_signature then 1 else 0 in
      let s = begin_list (signed + 1 + BtreeMap.len e.content * 2) in
      let s' = if include_signature then append_raw (rlp.encode_bytes e.signature) s else s in
      append_pairs e.content (append_raw (rlp.encode_uint e.seq) s')

  unfoldable pub rlp_content : Enr → Bytes
  rlp_content e = rlp.out (append_rlp_content e false)

  -- `rlp::encode(self)`, by `rlp_append`
  unfoldable pub encode : Enr → Bytes
  encode e = rlp.out (append_rlp_content e true)

  unfoldable pub size : Enr → ℕ
  size e = length (encode e)

  unfoldable pub compare_content : Enr → Enr → Bool
  compare_content a b = rlp_content a == rlp_content b

  -- `Display` and `Serialize` give this text too.
  unfoldable pub to_base64 : ⦃base64 : Base64⦄ → Enr → Bytes
  to_base64 ⦃base64⦄ e = text "enr:" ++ base64.encode (encode e)

  unfoldable pub public_key : {K P : Type 0} → EnrKey K P → Enr → Panics P
  public_key keys e = expect (keys.enr_to_public e.content)

  unfoldable pub verify : {K P : Type 0} → EnrKey K P → Enr → Panics Bool
  unfolding public_key
  verify keys e = do
    pubkey ← public_key keys e
    scheme ← id e
    elim scheme [
      | some s ↦
          if s == v4 then ret (keys.verify_v4 pubkey (rlp_content e) e.signature) else ret false
      | none ↦ ret false
    ]

-- `PartialEq`
unfoldable pub enr_eq : Enr → Enr → Bool
enr_eq a b = nat_eq a.seq b.seq && (node_id_eq a.node_id b.node_id && a.signature == b.signature)

-- `Hash`: what is fed to the hasher
unfoldable pub hash_input : Enr → ℕ × Bytes × Bytes
hash_input e = (e.seq, e.node_id.raw, e.signature)
