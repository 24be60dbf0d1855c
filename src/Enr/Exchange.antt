-- ===== src/Enr/Exchange.antt =====
-- A record that comes in, is updated, and goes out again.
use enr.Prelude.{◌≤◌, ◌≡◌, ok, ret}
use enr.Bytes.{Bytes}
use enr.Crates.Rlp.{Rlp, RlpLaws}
use enr.Crates.Hashing.{Keccak256}
use enr.Crates.Text.{Base64, Base64Laws}
use enr.Keys.Traits.{EnrKey}
use enr.Keys.Laws.{KeyLaws, IsUnambiguous}
use enr.Enr.Defs.{Enr, max_enr_size}
use enr.Enr.Encode.{encode, size, to_base64}
use enr.Enr.Decode.{decode, from_str}
use enr.Enr.Sound.{decode-IsValid}
use enr.Enr.RoundTrip.{decode-encode}
use enr.Enr.Base64.{from_str-to_base64}
use enr.Enr.Reach.{Reaches, Reaches-IsValid}

module _ ⦃rlp : Rlp⦄ ⦃keccak : Keccak256⦄ ⦃base64 : Base64⦄ (law : RlpLaws rlp)
    (text_law : Base64Laws base64) {K P S V : Type 0} (keys : EnrKey K P) (k256 : EnrKey S V)
    (key_law : KeyLaws keys) (own : IsUnambiguous keys) where
  -- A record that was decoded from any bytes and then updated by any sequence of the following steps,
  -- each by any key, is sent and read back as it is, as bytes and as text, if it has at most 300 bytes:
  -- a successful insertion of a sound value; a socket, with a port of 16 bits, that is set; a
  -- successful `remove_insert`, none of whose new values is under the name of the signer's public key,
  -- and one that fails for the size; a sequence number of 64 bits that is set by a key whose public key
  -- the record stores, and a failed `set_seq`. The key type keeps the promises of the traits and reads
  -- a stored key as that key.
  pub decode-Reaches :
      (raw : Bytes) (e e' : Enr)
      → decode keys raw ≡ ret (ok e)
      → Reaches keys k256 e e'
      → size e' ≤ max_enr_size
      → (decode keys (encode e') ≡ ret (ok e')) × (from_str keys (to_base64 e') ≡ ret (ok e'))
  decode-Reaches raw e e' read steps small =
      let (v, _) = decode-IsValid law keys raw e read in
      let v' = Reaches-IsValid keys k256 law key_law own e e' v steps in
      (decode-encode law keys e' v' small, from_str-to_base64 law text_law keys e' v' small)
