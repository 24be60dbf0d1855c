-- ===== src/Builder/Room.antt =====
-- A builder whose pairs are small enough is built, and what it builds is read back.
use enr.Prelude.{◌+◌, ◌^◌, ◌≤◌, ◌<◌, ◌≡◌, refl, ap, ◌∙◌, [], ◌∷◌, ok, ret, All, arith, length}
use enr.Bytes.{Bytes, id_key, v4}
use enr.BtreeMap
use enr.Crates.Rlp.{Rlp, RlpLaws}
use enr.Crates.Hashing.{Keccak256, KeccakLaws}
use enr.Crates.Text.{Base64, Base64Laws}
use enr.Keys.Traits.{Content, Entropy, EnrKey}
use enr.Keys.Laws.{KeyLaws, IsUnambiguous, IsCompact}
use enr.Enr.Defs.{Enr, max_enr_size}
use enr.Enr.Encode.{rlp_content, encode, to_base64}
use enr.Enr.Decode.{decode, from_str}
use enr.Enr.RoundTrip.{rlp_content-list_of, signed_items, decode-encode}
use enr.Enr.Commit.{rlp_content-eq}
use enr.Enr.Base64.{from_str-to_base64}
use enr.Enr.Valid.{IsSound, Entry, data_of-sanitize, IsOwned}
use enr.Enr.Room.{weight, weight-insert, length-encode_uint_le, named}
use enr.Builder.Defs.{Builder, build, add_public_key, add_value_rlp}
use enr.Builder.Finish.{prepared}
use enr.Builder.Exact.{IsReadable, build_iff_Builds}
use enr.Builder.Laws.{build-IsOwned}

module _ ⦃rlp : Rlp⦄ (law : RlpLaws rlp) where
  IsSound-IsReadable : (content : Content) → All Entry content → All IsReadable content
  IsSound-IsReadable [] a = tt
  IsSound-IsReadable ((key, value) ∷ content) (entry, a) =
      (data_of-sanitize law key value entry.sanitized, IsSound-IsReadable content a)

  module _ ⦃keccak : Keccak256⦄ {K P : Type 0} (keys : EnrKey K P) (compact : IsCompact keys)
      (keccak_law : KeccakLaws keccak) (key_law : KeyLaws keys) where
    pub weight-prepared :
        (k : K) (b : Builder)
        → b.id ≡ v4
        → weight (prepared keys k b).content ≤ weight b.content + 58
    unfolding add_public_key add_value_rlp
    weight-prepared k b scheme =
        let p = keys.public k in
        let small = compact.length-encode p in
        let name = compact.length-enr_key p in
        let value : length (rlp.encode_bytes b.id) ≤ 5 =
          rw scheme (law.length-encode_bytes_le v4 (omega arith)) in
        omega (
          arith,
          value,
          small,
          name,
          weight-insert law id_key (rlp.encode_bytes b.id) b.content (omega arith),
          weight-insert law (keys.enr_key p) (rlp.encode_bytes (keys.encode p))
              (BtreeMap.insert id_key (rlp.encode_bytes b.id) b.content) (omega (arith, name)),
          law.length-encode_bytes_le (keys.encode p) (omega (arith, small)),
        )

    -- A builder of the scheme `v4` with sound pairs of at most 156 bytes is built if its number has 64
    -- bits and the key signs.
    pub build_fits :
        (k : K) (rng : Entropy) (b : Builder)
        → b.id ≡ v4
        → b.seq < 2 ^ 64
        → IsSound b.content
        → weight b.content ≤ 156
        → ((msg : Bytes) → (sig : Bytes) × (keys.sign_v4 rng k msg ≡ ok sig))
        → (e : Enr) × (build keys k rng b ≡ ret (ok e, prepared keys k b))
          × (e.content ≡ (prepared keys k b).content)
          × (e.seq ≡ b.seq)
          × (length e.signature ≤ 64)
    unfolding add_public_key add_value_rlp
    build_fits k rng b scheme range sound light signs =
        let content = (prepared keys k b).content in
        let blank : Enr = record {
          seq = b.seq;
          node_id = (named law keys compact keccak_law key_law (keys.public k)).0;
          content = content;
          signature = [];
        } in
        let (sig, signed) = signs (rlp_content blank) in
        let sig_small = compact.length-sign_v4 rng k (rlp_content blank) signed in
        let e : Enr = record blank { signature = sig } in
        let heavy = weight-prepared k b scheme in
        let counted = length-encode_uint_le law b.seq range in
        let whole = ap length (rlp_content-list_of e) in
        let fits : length (rlp_content e) + length sig + 8 ≤ max_enr_size = omega (
          arith,
          whole,
          heavy,
          light,
          counted,
          sig_small,
          law.length-list_of_le (signed_items e) (omega (arith, heavy, light, counted)),
        ) in
        (
          e,
          (build_iff_Builds keys k rng b (prepared keys k b) e).1 (record {
            scheme = scheme;
            readable = IsSound-IsReadable b.content sound.entries;
            left = refl;
            finished = record {
              scheme = scheme;
              numbered = refl;
              same = refl;
              signed = ap (λ m. keys.sign_v4 rng k m) (rlp_content-eq e blank refl refl) ∙ signed;
              identified = (named law keys compact keccak_law key_law (keys.public k)).1;
              small = fits;
            };
          }),
          refl,
          refl,
          sig_small,
        )

    -- A builder of the scheme `v4` with a number of 64 bits, sound content and at most 156 bytes of
    -- pairs builds a record, for a key that signs, if keys and signatures are as short as those of the
    -- supported curves. The record is the signer's, has the builder's number, and its pairs are the
    -- builder's, the identity scheme and the public key; its bytes and its text are read back as it.
    -- The key type keeps the promises of the traits and reads a stored key as that key.
    pub build_transmits :
        ⦃base64 : Base64⦄
        → (text_law : Base64Laws base64) (own : IsUnambiguous keys) (k : K) (rng : Entropy)
          (b : Builder)
        → b.id ≡ v4
        → b.seq < 2 ^ 64
        → IsSound b.content
        → weight b.content ≤ 156
        → ((msg : Bytes) → (sig : Bytes) × (keys.sign_v4 rng k msg ≡ ok sig))
        → (e : Enr) × (build keys k rng b ≡ ret (ok e, prepared keys k b))
          × IsOwned keys k e
          × (e.content ≡ (prepared keys k b).content)
          × (e.seq ≡ b.seq)
          × (decode keys (encode e) ≡ ret (ok e))
          × (from_str keys (to_base64 e) ≡ ret (ok e))
    build_transmits text_law own k rng b scheme range sound light signs =
        let (e, built, content, seq, sig) = build_fits k rng b scheme range sound light signs in
        let (owned, small, _, _) =
          build-IsOwned keys law key_law own k rng b (prepared keys k b) e sound range built in
        (
          e,
          built,
          owned,
          content,
          seq,
          decode-encode law keys e owned.valid small,
          from_str-to_base64 law text_law keys e owned.valid small,
        )
