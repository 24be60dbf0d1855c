-- ===== src/Bytes/Laws.antt =====
-- The order of byte strings is a strict total order.
use enr.Prelude.{[], ◌∷◌, Ordering, ◌≡◌, refl, arith}
use enr.Bytes.Order.{Bytes, compare_bytes}

infix 50 ◌≺◌
abbrev pub ◌≺◌ : Bytes → Bytes → Type 0
a ≺ b = compare_bytes a b ≡ Ordering.lt

pub compare_refl : (a : Bytes) → compare_bytes a a ≡ Ordering.eq
unfolding compare_bytes
compare_refl [] = refl
compare_refl (a ∷ r) = ground (arith, compare_refl r)

pub eq_of_compare : (a b : Bytes) → compare_bytes a b ≡ Ordering.eq → a ≡ b
unfolding compare_bytes
eq_of_compare [] [] h = refl
eq_of_compare [] (b ∷ s) h = ground arith
eq_of_compare (a ∷ r) [] h = ground arith
eq_of_compare (a ∷ r) (b ∷ s) h = ground (arith, eq_of_compare r s)

pub lt_of_gt : (a b : Bytes) → compare_bytes a b ≡ Ordering.gt → b ≺ a
unfolding compare_bytes
lt_of_gt [] [] h = ground arith
lt_of_gt [] (b ∷ s) h = ground arith
lt_of_gt (a ∷ r) [] h = refl
lt_of_gt (a ∷ r) (b ∷ s) h = ground (arith, lt_of_gt r s)

pub gt_of_lt : (a b : Bytes) → a ≺ b → compare_bytes b a ≡ Ordering.gt
unfolding compare_bytes
gt_of_lt [] [] h = ground arith
gt_of_lt [] (b ∷ s) h = refl
gt_of_lt (a ∷ r) [] h = ground arith
gt_of_lt (a ∷ r) (b ∷ s) h = ground (arith, gt_of_lt r s)

pub lt_trans : (a b c : Bytes) → a ≺ b → b ≺ c → a ≺ c
unfolding compare_bytes
lt_trans a [] c h k = absurd (nothing_below a h)
  where
    nothing_below : (x : Bytes) → x ≺ [] → ⊥
    nothing_below [] e = ground arith
    nothing_below (y ∷ t) e = ground arith
lt_trans [] (b ∷ s) [] h k = ground arith
lt_trans [] (b ∷ s) (c ∷ t) h k = refl
lt_trans (a ∷ r) (b ∷ s) [] h k = ground arith
lt_trans (a ∷ r) (b ∷ s) (c ∷ t) h k = ground (arith, lt_trans r s t)
