-- ===== src/Enr/Iteration.antt =====
-- What the owning iterator yields.
use mathlib.Core.List.{Memᴰ}
use enr.Prelude.{ℕ, zero, suc, ◌≤◌, ◌≡◌, refl, ap, [], ◌∷◌, some, length, arith, Ordering}
use enr.Bytes.{Bytes, compare_bytes}
use enr.Bytes.Laws.{eq_of_compare}
use enr.BtreeMap
use enr.Keys.Traits.{Content}
use enr.Enr.Iter.{next, drain}

-- The owning iterator ends after as many rounds as there are pairs.
drain_lem :
    (n : ℕ) (content : Content)
    → length content ≤ n
    → drain n (record { inner = content }) ≡ content
unfolding drain next
drain_lem zero [] h = refl
drain_lem (suc n) [] h = refl
drain_lem zero (entry ∷ rest) h = absurd (omega arith)
drain_lem (suc n) (entry ∷ rest) h =
    ap (λ (c : Content). entry ∷ c) (drain_lem n rest (omega arith))

pub get-Memᴰ : (k v : Bytes) (m : Content) → BtreeMap.get k m ≡ some v → Memᴰ (k, v) m
unfolding BtreeMap.get
get-Memᴰ k v [] h = absurd (cc h)
get-Memᴰ k v ((j, w) ∷ m) h = by_order (compare_bytes k j) refl (get-Memᴰ k v m)
  where
    by_order :
        (o : Ordering)
        → compare_bytes k j ≡ o
        → (BtreeMap.get k m ≡ some v → Memᴰ (k, v) m)
        → Memᴰ (k, v) ((j, w) ∷ m)
    by_order Ordering.eq i rest =
        let is_key = eq_of_compare k j i in
        let is_value : v ≡ w = ground (arith, i) in Memᴰ.head (rw (is_key, is_value) refl)
    by_order Ordering.lt i rest = Memᴰ.tail (rest (ground (arith, i)))
    by_order Ordering.gt i rest = Memᴰ.tail (rest (ground (arith, i)))
