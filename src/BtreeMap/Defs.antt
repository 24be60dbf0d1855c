-- ===== src/BtreeMap/Defs.antt =====
-- `std::collections::BTreeMap<Vec<u8>, _>`: the entries in ascending order of their keys.
use enr.Prelude.{List, [], ◌∷◌, Option, none, some, Ordering, length, ℕ}
use enr.Bytes.{Bytes, compare_bytes}

abbrev pub BtreeMap {ℓ} : Type ℓ → Type ℓ
BtreeMap V = List (Bytes × V)

module _ {ℓ} {V : Type ℓ} where
  unfoldable pub get : Bytes → BtreeMap V → Option V
  get k [] = none
  get k ((j, w) ∷ m) = elim (compare_bytes k j) [ Ordering.eq ↦ some w | _ ↦ get k m ]

  -- The previous value, which the method returns, is that of `get` before the call.
  unfoldable pub insert : Bytes → V → BtreeMap V → BtreeMap V
  insert k v [] = (k, v) ∷ []
  insert k v ((j, w) ∷ m) = elim (compare_bytes k j) [
    | Ordering.lt ↦ (k, v) ∷ (j, w) ∷ m
    | Ordering.eq ↦ (k, v) ∷ m
    | Ordering.gt ↦ (j, w) ∷ insert k v m
  ]

  unfoldable pub remove : Bytes → BtreeMap V → BtreeMap V
  remove k [] = []
  remove k ((j, w) ∷ m) = elim (compare_bytes k j) [ Ordering.eq ↦ m | _ ↦ (j, w) ∷ remove k m ]

  abbrev pub len : BtreeMap V → ℕ
  len = length
