-- ===== src/BtreeMap/Laws.antt =====
-- Lookups after updates, and the order of the keys.
use enr.Prelude.{
  [], ◌∷◌, ◌++◌, ◌≡◌, ◌≢◌, refl, none, some, All, arith, Bool-cases, inl, inr, if◌then◌else◌,
}
use enr.Bytes.{Bytes, ◌==◌}
use enr.Bytes.Laws.{◌≺◌, compare_refl, eq_of_compare, lt_of_gt, gt_of_lt, lt_trans}
use enr.BtreeMap.Defs.{BtreeMap, get, insert, remove}

module _ {ℓ} {V : Type ℓ} where
  pub get-insert_self : (k : Bytes) (v : V) (m : BtreeMap V) → get k (insert k v m) ≡ some v
  unfolding get insert
  get-insert_self k v [] = ground (arith, compare_refl k)
  get-insert_self k v ((j, w) ∷ m) = ground (arith, compare_refl k, get-insert_self k v m)

  pub get-insert_ne :
      (k q : Bytes) (v : V) (m : BtreeMap V) → q ≢ k → get q (insert k v m) ≡ get q m
  unfolding get insert
  get-insert_ne k q v [] ne = ground (arith, eq_of_compare q k)
  get-insert_ne k q v ((j, w) ∷ m) ne =
      ground (arith, eq_of_compare q k, eq_of_compare k j, get-insert_ne k q v m)

  pub get-remove_ne : (k q : Bytes) (m : BtreeMap V) → q ≢ k → get q (remove k m) ≡ get q m
  unfolding get remove
  get-remove_ne k q [] ne = refl
  get-remove_ne k q ((j, w) ∷ m) ne =
      ground (arith, eq_of_compare q j, eq_of_compare k j, get-remove_ne k q m)

  -- every key of the map lies above `b`
  abbrev pub Above : Bytes → BtreeMap V → Type 0
  Above b [] = Unit
  Above b ((j, w) ∷ m) = (b ≺ j) × Above b m

  -- the keys ascend, and no key occurs twice
  abbrev pub IsSorted : BtreeMap V → Type 0
  IsSorted [] = Unit
  IsSorted ((j, w) ∷ m) = Above j m × IsSorted m

  pub Above-trans : (a b : Bytes) (m : BtreeMap V) → a ≺ b → Above b m → Above a m
  Above-trans a b [] h t = tt
  Above-trans a b ((j, w) ∷ m) h t = (lt_trans a b j h t.0, Above-trans a b m h t.1)

  pub Above-insert :
      (a k : Bytes) (v : V) (m : BtreeMap V) → a ≺ k → Above a m → Above a (insert k v m)
  unfolding insert
  Above-insert a k v [] h t = (h, tt)
  Above-insert a k v ((j, w) ∷ m) h t = ground (arith, Above-insert a k v m)

  pub Above-remove : (a k : Bytes) (m : BtreeMap V) → Above a m → Above a (remove k m)
  unfolding remove
  Above-remove a k [] t = tt
  Above-remove a k ((j, w) ∷ m) t = ground (arith, Above-remove a k m)

  pub insert-IsSorted : (k : Bytes) (v : V) (m : BtreeMap V) → IsSorted m → IsSorted (insert k v m)
  unfolding insert
  insert-IsSorted k v [] s = (tt, tt)
  insert-IsSorted k v ((j, w) ∷ m) s = ground (
    arith,
    insert-IsSorted k v m,
    Above-trans k j m,
    eq_of_compare k j,
    lt_of_gt k j,
    Above-insert j k v m,
  )

  pub remove-IsSorted : (k : Bytes) (m : BtreeMap V) → IsSorted m → IsSorted (remove k m)
  unfolding remove
  remove-IsSorted k [] s = tt
  remove-IsSorted k ((j, w) ∷ m) s = ground (arith, remove-IsSorted k m, Above-remove j k m)

  -- a key below all others is absent
  pub get-Above : (k : Bytes) (m : BtreeMap V) → Above k m → get k m ≡ none
  unfolding get
  get-Above k [] t = refl
  get-Above k ((j, w) ∷ m) t = ground (arith, get-Above k m)

  pub get-remove_self : (k : Bytes) (m : BtreeMap V) → IsSorted m → get k (remove k m) ≡ none
  unfolding get remove
  get-remove_self k [] s = refl
  get-remove_self k ((j, w) ∷ m) s =
      ground (arith, get-remove_self k m, eq_of_compare k j, get-Above k m)

  -- a property of the entries, kept by updates
  pub All-insert {κ} :
      (P : Bytes × V → Type κ) (k : Bytes) (v : V) (m : BtreeMap V)
      → P (k, v)
      → All P m
      → All P (insert k v m)
  unfolding insert
  All-insert P k v [] p a = (p, tt)
  All-insert P k v ((j, w) ∷ m) p a = ground (arith, All-insert P k v m)

  pub All-remove {κ} :
      (P : Bytes × V → Type κ) (k : Bytes) (m : BtreeMap V) → All P m → All P (remove k m)
  unfolding remove
  All-remove P k [] a = tt
  All-remove P k ((j, w) ∷ m) a = ground (arith, All-remove P k m)

  -- a property of the entries holds of what a lookup finds
  pub All-get {κ} :
      (P : Bytes × V → Type κ) (k : Bytes) {v : V} (m : BtreeMap V)
      → All P m
      → get k m ≡ some v
      → P (k, v)
  unfolding get
  All-get P k [] a e = ground arith
  All-get P k {v} ((j, w) ∷ m) a e = ground (arith, eq_of_compare k j, All-get P k {v = v} m)

  -- Inserting above all keys appends.
  pub insert-append :
      (k : Bytes) (v : V) (m : BtreeMap V)
      → All (λ (entry : Bytes × V). entry.0 ≺ k) m
      → insert k v m ≡ m ++ (k, v) ∷ []
  unfolding insert
  insert-append k v [] a = refl
  insert-append k v ((j, w) ∷ m) a = ground (arith, gt_of_lt j k, insert-append k v m a.1)

-- What is read after an insertion.
pub get-insert :
    {V : Type 0} (q k : Bytes) (v : V) (m : BtreeMap V)
    → get q (insert k v m) ≡ (if q == k then some v else get q m)
get-insert q k v m = elim (Bool-cases (q == k)) [
  | inl same ↦
      let is_key : q ≡ k = ground (arith, eq_of_compare q k) in
      rw same (rw is_key (get-insert_self k v m))
  | inr other ↦
      let ne : q ≢ k = λ i. ground (arith, i, compare_refl k) in rw other (get-insert_ne k q v m ne)
]
