-- ===== src/Builder/Total.antt =====
-- `build` and `Enr::empty` return.
use enr.Prelude.{◌+◌, refl, Option, none, some, Result, ok, err, ret, ltb, length, if◌then◌else◌}
use enr.Prelude.Panicking.{◌>>=◌}
use enr.Bytes.{Bytes, ◌==◌, v4, from_utf8_lossy}
use enr.Crates.Rlp.{Rlp, RlpLaws}
use enr.Crates.Hashing.{Keccak256, KeccakLaws}
use enr.Error.{EnrError, exceeds_max_size, invalid_rlp_data}
use enr.NodeId.{of_public_key}
use enr.Keys.Traits.{Entropy, EnrKey}
use enr.Keys.Laws.{KeyLaws}
use enr.Enr.Defs.{Enr, max_enr_size}
use enr.Enr.Total.{Returns, >>=-Returns, of_public_key_total}
use enr.Enr.Total.Updates.{either}
use enr.Builder.Defs.{Builder, builder, rlp_content, signature, first_invalid, finish, build, empty}
use enr.Builder.Finish.{prepared}

module _ ⦃rlp : Rlp⦄ (law : RlpLaws rlp) ⦃keccak : Keccak256⦄ (keccak_law : KeccakLaws keccak)
    {K P : Type 0} (keys : EnrKey K P) (key_law : KeyLaws keys) where
  finish_total : (k : K) (rng : Entropy) (b : Builder) → Returns (finish keys k rng b)
  unfolding finish
  finish_total k rng b = by_signature (signature keys k rng b)
    where
      by_signature :
          (r : Result EnrError Bytes)
          → Returns {A = Result EnrError Enr} (elim r [
            | err x ↦ ret (err x)
            | ok sig ↦
                if ltb max_enr_size (length (rlp_content b) + length sig + 8)
                then ret (err exceeds_max_size)
                else (of_public_key keys.public_key (keys.public k) >>= λ node_id. ret (
                    ok (record {
                      seq = b.seq;
                      node_id = node_id;
                      content = b.content;
                      signature = sig;
                    })))
          ])
      by_signature (err x) = (_, refl)
      by_signature (ok sig) =
          either (ltb max_enr_size (length (rlp_content b) + length sig + 8)) _ _ (_, refl)
            (>>=-Returns _ _ (of_public_key_total law keccak_law keys key_law (keys.public k))
              (λ n. (_, refl)))

  -- `build` does not panic, whatever the builder holds: it returns a record or an error. The key
  -- type keeps the promises of the traits.
  pub build_total : (k : K) (rng : Entropy) (b : Builder) → Returns (build keys k rng b)
  unfolding build
  build_total k rng b = either (b.id == v4) _ _ (by_values (first_invalid b.content)) (_, refl)
    where
      by_values :
          (o : Option Bytes)
          → Returns {A = Result EnrError Enr × Builder} (elim o [
            | some q ↦ ret (err (invalid_rlp_data (from_utf8_lossy q)), b)
            | none ↦
                (finish keys k rng (prepared keys k b) >>= λ result.
                ret (result, prepared keys k b))
          ])
      by_values (some q) = (_, refl)
      by_values none =
          >>=-Returns _ _ (finish_total k rng (prepared keys k b)) (λ result. (_, refl))

  empty_total : (k : K) (rng : Entropy) → Returns (empty keys k rng)
  unfolding empty
  empty_total k rng = >>=-Returns _ _ (build_total k rng builder) (λ _. (_, refl))
