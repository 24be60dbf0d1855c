-- ===== src/Bytes/Order.antt =====
-- The order of byte strings: `Ord for [u8]`, lexicographic.
use enr.Prelude.{ℕ, List, [], ◌∷◌, Bool, true, false, compare, Ordering}

-- An element stands for a `u8`.
abbrev pub Bytes : Type 0
Bytes = List ℕ

unfoldable pub compare_bytes : Bytes → Bytes → Ordering
compare_bytes [] [] = Ordering.eq
compare_bytes [] (b ∷ bs) = Ordering.lt
compare_bytes (a ∷ r) [] = Ordering.gt
compare_bytes (a ∷ r) (b ∷ s) = elim (compare a b) [
  | Ordering.lt ↦ Ordering.lt
  | Ordering.eq ↦ compare_bytes r s
  | Ordering.gt ↦ Ordering.gt
]

infix 50 ◌==◌
abbrev pub ◌==◌ : Bytes → Bytes → Bool
a == b = elim (compare_bytes a b) [ Ordering.eq ↦ true | _ ↦ false ]
