-- ===== src/BtreeMap/Restore.antt =====
-- Undoing an insertion with the previous value, as the setters of src/lib.rs do.
use enr.Prelude.{[], ◌∷◌, ◌≡◌, ◌≢◌, refl, Option, none, some, arith}
use enr.Bytes.{Bytes}
use enr.Bytes.Laws.{compare_refl, eq_of_compare, lt_of_gt, gt_of_lt, lt_trans}
use enr.BtreeMap.Defs.{BtreeMap, get, insert, remove}
use enr.BtreeMap.Laws.{IsSorted, get-Above, Above-trans}

module _ {ℓ} {V : Type ℓ} where
  -- `if let Some(v) = prev { map.insert(k, v) } else { map.remove(k) }`
  abbrev pub restore : Bytes → Option V → BtreeMap V → BtreeMap V
  restore k none m = remove k m
  restore k (some v) m = insert k v m

  remove-insert :
      (k : Bytes) (w : V) (m : BtreeMap V) → get k m ≡ none → remove k (insert k w m) ≡ m
  unfolding get insert remove
  remove-insert k w [] e = ground (arith, compare_refl k)
  remove-insert k w ((j, x) ∷ m) e = ground (arith, compare_refl k, remove-insert k w m)

  insert_twice :
      (k : Bytes) (v w : V) (m : BtreeMap V)
      → IsSorted m
      → get k m ≡ some v
      → insert k v (insert k w m) ≡ m
  unfolding get insert
  insert_twice k v w [] s e = ground arith
  insert_twice k v w ((j, x) ∷ m) s e = ground (
    arith,
    compare_refl k,
    eq_of_compare k j,
    insert_twice k v w m,
    get-Above k m,
    Above-trans k j m,
  )

  -- Restoring the previous value undoes an insertion.
  pub restore-insert :
      (k : Bytes) (w : V) (m : BtreeMap V) → IsSorted m → restore k (get k m) (insert k w m) ≡ m
  restore-insert k w m s = by_previous (get k m) refl
    where
      by_previous : (o : Option V) → get k m ≡ o → restore k o (insert k w m) ≡ m
      by_previous none e = remove-insert k w m e
      by_previous (some v) e = insert_twice k v w m s e

  -- Insertions at two keys commute.
  pub insert_comm :
      (j k : Bytes) (v w : V) (m : BtreeMap V)
      → j ≢ k
      → insert j v (insert k w m) ≡ insert k w (insert j v m)
  unfolding insert
  insert_comm j k v w [] ne =
      ground (arith, eq_of_compare j k, lt_of_gt j k, gt_of_lt j k, gt_of_lt k j)
  insert_comm j k v w ((i, x) ∷ m) ne = ground (
    arith,
    eq_of_compare j k,
    eq_of_compare j i,
    eq_of_compare k i,
    lt_of_gt j k,
    gt_of_lt j k,
    lt_of_gt j i,
    lt_of_gt k i,
    gt_of_lt k j,
    lt_trans j i k,
    lt_trans k i j,
    insert_comm j k v w m,
  )
