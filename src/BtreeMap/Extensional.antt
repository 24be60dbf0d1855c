-- ===== src/BtreeMap/Extensional.antt =====
-- Two maps with the same lookups are the same.
use enr.Prelude.{
  [], ◌∷◌, ◌≡◌, ◌≢◌, refl, sym, ◌∙◌, none, some, arith, Ordering, Bool-cases, inl, inr,
}
use mathlib.Core.Path.{ap₂}
use enr.Bytes.{Bytes, compare_bytes, ◌==◌}
use enr.Bytes.Laws.{compare_refl, eq_of_compare, lt_of_gt}
use enr.BtreeMap.Defs.{BtreeMap, get, insert}
use enr.BtreeMap.Laws.{IsSorted, Above, Above-trans, get-Above, get-insert, insert-IsSorted}

module _ {ℓ} {V : Type ℓ} where
  get-head : (j : Bytes) (v : V) (m : BtreeMap V) → get j ((j, v) ∷ m) ≡ some v
  unfolding get
  get-head j v m = ground (arith, compare_refl j)

  get-nil : (q : Bytes) → get {V = V} q [] ≡ none
  unfolding get
  get-nil q = refl

  get-tail : (q j : Bytes) (v : V) (m : BtreeMap V) → q ≢ j → get q ((j, v) ∷ m) ≡ get q m
  unfolding get
  get-tail q j v m ne = ground (arith, eq_of_compare q j)

  -- The lookups of the rest are those of the whole, or none.
  tails :
      (j : Bytes) (v : V) (m n : BtreeMap V)
      → Above j m
      → Above j n
      → ((q : Bytes) → get q ((j, v) ∷ m) ≡ get q ((j, v) ∷ n))
      → (q : Bytes) → get q m ≡ get q n
  tails j v m n a b same q = elim (Bool-cases (q == j)) [
    | inl is_j ↦
        let at_j : q ≡ j = ground (arith, eq_of_compare q j) in
        rw at_j (get-Above j m a ∙ sym (get-Above j n b))
    | inr other ↦
        let ne : q ≢ j = λ i. ground (arith, i, compare_refl j) in
        sym (get-tail q j v m ne) ∙ same q ∙ get-tail q j v n ne
  ]

  some-injective : {v w : V} → some v ≡ some w → v ≡ w
  some-injective h = cc h

  pub IsSorted-extensional :
      (m n : BtreeMap V) → IsSorted m → IsSorted n → ((q : Bytes) → get q m ≡ get q n) → m ≡ n
  IsSorted-extensional [] [] s t same = refl
  IsSorted-extensional [] ((i, w) ∷ n) s t same = absurd (cc (same i, get-nil i, get-head i w n))
  IsSorted-extensional ((j, v) ∷ m) [] s t same = absurd (cc (same j, get-nil j, get-head j v m))
  IsSorted-extensional ((j, v) ∷ m) ((i, w) ∷ n) s t same =
      by_order (compare_bytes j i) refl (λ same_rest. IsSorted-extensional m n s.1 t.1 same_rest)
    where
      by_order :
          (o : Ordering)
          → compare_bytes j i ≡ o
          → (((q : Bytes) → get q m ≡ get q n) → m ≡ n)
          → (j, v) ∷ m ≡ (i, w) ∷ n
      by_order Ordering.lt h rest =
          let absent = get-Above j ((i, w) ∷ n) (h, Above-trans j i n h t.0) in
          absurd (cc (same j, get-head j v m, absent))
      by_order Ordering.gt h rest =
          let below = lt_of_gt j i h in
          let absent = get-Above i ((j, v) ∷ m) (below, Above-trans i j m below s.0) in
          absurd (cc (same i, get-head i w n, absent))
      by_order Ordering.eq h rest =
          let is_key = eq_of_compare j i h in
          let is_value : v ≡ w =
            some-injective (sym (get-head j v m) ∙ same j ∙ rw is_key (get-head i w n)) in
          let as_one : (q : Bytes) → get q ((j, v) ∷ m) ≡ get q ((j, v) ∷ n) =
            λ q. same q ∙ rw (← is_key, ← is_value) refl in
          ap₂ (λ (head : Bytes × V) (tail : BtreeMap V). head ∷ tail) (rw (is_key, is_value) refl)
            (rest (tails j v m n s.0 (rw is_key t.0) as_one))

-- Inserting what is there changes nothing.
pub insert_present :
    {V : Type 0} (k : Bytes) (v : V) (m : BtreeMap V)
    → IsSorted m
    → get k m ≡ some v
    → insert k v m ≡ m
insert_present k v m s present =
    IsSorted-extensional (insert k v m) m (insert-IsSorted k v m s) s same
  where
    same : (q : Bytes) → get q (insert k v m) ≡ get q m
    same q = elim (Bool-cases (q == k)) [
      | inl is_k ↦
          let at_k : q ≡ k = ground (arith, eq_of_compare q k) in
          get-insert q k v m ∙ rw is_k (rw at_k (sym present))
      | inr other ↦ get-insert q k v m ∙ rw other refl
    ]
