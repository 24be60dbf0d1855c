-- ===== src/Enr/Total.antt =====
-- Calls that return: neither `expect` of src/lib.rs panics on what `decode` has read.
pub mod Updates
use enr.Prelude.{
  ℕ, ◌≡◌, ◌≢◌, refl, Option, none, some, Bool, true, false, Result, ok, err, Panics, ret, panic,
  arith, Bool-cases, inl, inr, if◌then◌else◌,
}
use enr.Prelude.Fallible.{>>=-ok}
use enr.Prelude.Panicking
use enr.Bytes.{Bytes, ◌==◌, id_key, v4}
use enr.Crates.Rlp.{Rlp, RlpLaws, DecoderError}
use enr.Crates.Hashing.{Keccak256, KeccakLaws}
use enr.NodeId.{of_public_key}
use enr.NodeId.Laws.{of_public_key_lem}
use enr.Keys.Traits.{Content, EnrKey}
use enr.Keys.Laws.{KeyLaws}
use enr.Enr.Defs.{Enr}
use enr.Enr.Getters.{id, map_option}
use enr.Enr.Encode.{verify, public_key, rlp_content}
use enr.Enr.Decode.{check_frame, read_items, read_record, authenticate, decode}
use enr.Enr.Valid.{IsSound, get_total}
use enr.Enr.Sound.{read_items-IsSound}

-- A call that does not panic.
abbrev pub Returns : {A : Type 0} → Panics A → Type 0
Returns {A} m = (a : A) × (m ≡ ret a)

pub >>=-Returns :
    {A B : Type 0} (m : Panics A) (f : A → Panics B)
    → Returns m
    → ((a : A) → Returns (f a))
    → Returns (Panicking.◌>>=◌ m f)
>>=-Returns m f (a, h) next = let (b, i) = next a in (b, rw h i)

module _ ⦃rlp : Rlp⦄ (law : RlpLaws rlp) where
  pub id_total : (e : Enr) → IsSound e.content → Returns (id e)
  unfolding id
  id_total e s = >>=-Returns _ _ (get_total law e id_key s) (λ o. (_, refl))

  -- A record with sound content and a known public key is verified without a panic.
  pub verify_total :
      {K P : Type 0} (keys : EnrKey K P) (e : Enr) {p : P}
      → IsSound e.content
      → keys.enr_to_public e.content ≡ ok p
      → Returns (verify keys e)
  unfolding verify public_key
  verify_total keys e {p} s known = rw known (>>=-Returns (id e) _ (id_total e s) by_scheme)
    where
      by_scheme :
          (o : Option Bytes)
          → Returns (elim o [
            | some s ↦
                if s == v4 then ret (keys.verify_v4 p (rlp_content e) e.signature) else ret false
            | none ↦ ret false
          ])
      by_scheme none = (false, refl)
      by_scheme (some s) = elim (Bool-cases (s == v4)) [
        | inl same ↦ (keys.verify_v4 p (rlp_content e) e.signature, rw same refl)
        | inr other ↦ (false, rw other refl)
      ]

  module _ ⦃keccak : Keccak256⦄ (keccak_law : KeccakLaws keccak) {K P : Type 0} (keys : EnrKey K P)
      (key_law : KeyLaws keys) where
    pub of_public_key_total : (p : P) → Returns (of_public_key keys.public_key p)
    of_public_key_total p =
        (_, of_public_key_lem keccak_law keys.public_key p (key_law.encode_uncompressed_total p).1)

    authenticate_total :
        (p : P) (signature : Bytes) (seq : ℕ) (content : Content)
        → IsSound content
        → keys.enr_to_public content ≡ ok p
        → Returns (authenticate keys p signature seq content)
    unfolding authenticate
    authenticate_total p signature seq content s known =
        >>=-Returns _ _ (of_public_key_total p) (λ node_id.
          let e : Enr = record {
            seq = seq;
            node_id = node_id;
            content = content;
            signature = signature;
          } in
          >>=-Returns (verify keys e) _ (verify_total keys e s known) (λ valid. (_, refl)))

    -- No input makes `decode` panic, for a key type that keeps the promises of the traits.
    pub decode_total : (raw : Bytes) → Returns (decode keys raw)
    unfolding decode read_record
    decode_total raw = by_read (read_record raw) refl
      where
        by_key :
            (signature : Bytes) (seq : ℕ) (content : Content)
            → read_record raw ≡ ok (signature, seq, content)
            → (r : Result DecoderError P) → keys.enr_to_public content ≡ r
            → Returns (decode keys raw)
        by_key signature seq content i (ok p) known =
            let (_, _, items) = >>=-ok (check_frame raw) _ i in
            let (_, sound) =
              read_items-IsSound law (rlp.iter raw) signature seq content (law.iter-IsItem raw)
                items in
            let (e, read) = authenticate_total p signature seq content sound known in
            (e, rw (i, decode) (rw known read))
        by_key signature seq content i (err x) unknown = (err x, rw (i, decode) (rw unknown refl))

        by_read :
            (r : Result DecoderError (Bytes × ℕ × Content))
            → read_record raw ≡ r
            → Returns (decode keys raw)
        by_read (ok (signature, seq, content)) i =
            by_key signature seq content i (keys.enr_to_public content) refl
        by_read (err x) i = (err x, rw (i, decode) refl)
