-- ===== src/Enr/Action.antt =====
-- A method on `&mut Enr`: it may panic, and otherwise it returns a result and the record as it left
-- it. What was written before an error stays written.
use enr.Prelude.{
  ◌≡◌, refl, ◌⊎◌, inl, inr, arith, ◌+◌, ◌^◌, Option, none, some, Result, ok, err, Panics, ret,
  panic, ltb, if◌then◌else◌,
}
use enr.Bytes.{Bytes}
use enr.BtreeMap
use enr.Error.{EnrError, sequence_number_too_high}
use enr.Crates.Hashing.{Keccak256}
use enr.NodeId.{of_public_key}
use enr.Keys.Traits.{EnrKey}
use enr.Enr.Defs.{Enr}

abbrev pub Action : Type 0 → Type 0
Action A = Enr → Panics (Result EnrError A × Enr)

module _ {A : Type 0} where
  abbrev pub pure : A → Action A
  pure a e = ret (ok a, e)

  abbrev pub raise : EnrError → Action A
  raise x e = ret (err x, e)

  -- the operator `?` on a result at hand
  abbrev pub try : Result EnrError A → Action A
  try r e = ret (r, e)

  abbrev pub gets : (Enr → A) → Action A
  gets f e = ret (ok (f e), e)

  -- a call that may panic, and does not touch the record
  abbrev pub call : Panics A → Action A
  call (ret a) e = ret (ok a, e)
  call panic e = panic

module _ {A B : Type 0} where
  infixl 5 ◌>>=◌
  abbrev pub ◌>>=◌ : Action A → (A → Action B) → Action B
  ◌>>=◌ m f e = elim (m e) [
    | ret (ok a, e') ↦ f a e'
    | ret (err x, e') ↦ ret (err x, e')
    | panic ↦ panic
  ]

  -- A chain whose first step is known.
  pub >>=-of_ok :
      {a : A} {e₁ : Enr} (m : Action A) (f : A → Action B) (e : Enr)
      → m e ≡ ret (ok a, e₁)
      → (m >>= f) e ≡ f a e₁
  >>=-of_ok m f e h = rw (h, ◌>>=◌)

  pub >>=-of_err :
      {x : EnrError} {e₁ : Enr} (m : Action A) (f : A → Action B) (e : Enr)
      → m e ≡ ret (err x, e₁)
      → (m >>= f) e ≡ ret (err x, e₁)
  >>=-of_err m f e h = rw (h, ◌>>=◌)

  pub >>=-of_panic : (m : Action A) (f : A → Action B) (e : Enr) → m e ≡ panic → (m >>= f) e ≡ panic
  >>=-of_panic m f e h = rw (h, ◌>>=◌) refl

  -- Inversion of a chain, by how it ended.
  pub >>=-ok :
      (m : Action A) (f : A → Action B) (e e' : Enr) {b : B}
      → (m >>= f) e ≡ ret (ok b, e')
      → (a : A) × (e₁ : Enr) × (m e ≡ ret (ok a, e₁)) × (f a e₁ ≡ ret (ok b, e'))
  >>=-ok m f e e' {b} h = by_first (m e) refl
    where
      by_first :
          (r : Panics (Result EnrError A × Enr))
          → m e ≡ r
          → (a : A) × (e₁ : Enr) × (m e ≡ ret (ok a, e₁)) × (f a e₁ ≡ ret (ok b, e'))
      by_first (ret (ok a, e₁)) i = (a, e₁, i, ground arith)
      by_first (ret (err x, e₁)) i = absurd (ground arith)
      by_first panic i = absurd (ground arith)

  pub >>=-err :
      (m : Action A) (f : A → Action B) (e e' : Enr) {x : EnrError}
      → (m >>= f) e ≡ ret (err x, e')
      → (m e ≡ ret (err x, e'))
        ⊎ ((a : A) × (e₁ : Enr) × (m e ≡ ret (ok a, e₁)) × (f a e₁ ≡ ret (err x, e')))
  >>=-err m f e e' {x} h = by_first (m e) refl
    where
      by_first :
          (r : Panics (Result EnrError A × Enr))
          → m e ≡ r
          → (m e ≡ ret (err x, e'))
            ⊎ ((a : A) × (e₁ : Enr) × (m e ≡ ret (ok a, e₁)) × (f a e₁ ≡ ret (err x, e')))
      by_first (ret (ok a, e₁)) i = inr (a, e₁, i, ground arith)
      by_first (ret (err y, e₁)) i = inl (ground arith)
      by_first panic i = absurd (ground arith)

-- A chain that ends by returning its value.
pub >>=-pure : {A : Type 0} (m : Action A) (e : Enr) → (m >>= pure) e ≡ m e
>>=-pure {A} m e = by_result (m e) refl
  where
    by_result : (r : Panics (Result EnrError A × Enr)) → m e ≡ r → (m >>= pure) e ≡ m e
    by_result (ret (ok a, e')) h = rw (h, ◌>>=◌) refl
    by_result (ret (err x, e')) h = rw (h, ◌>>=◌) refl
    by_result panic h = rw (h, ◌>>=◌) refl

abbrev pub modify : (Enr → Enr) → Action (Unit {0})
modify f e = ret (ok tt, f e)

-- `self.content.insert(key, value)` and `self.content.remove(key)`, which return what was there
abbrev pub content_insert : Bytes → Bytes → Action (Option Bytes)
content_insert key value e =
    ret
      (ok (BtreeMap.get key e.content), record e { content = BtreeMap.insert key value e.content })

abbrev pub content_remove : Bytes → Action (Option Bytes)
content_remove key e =
    ret (ok (BtreeMap.get key e.content), record e { content = BtreeMap.remove key e.content })

-- `if let Some(v) = previous { insert(key, v) } else { remove(key) }`
abbrev pub content_revert : Bytes → Option Bytes → Action (Option Bytes)
content_revert key none = content_remove key
content_revert key (some v) = content_insert key v

-- `self.seq = self.seq.checked_add(1).ok_or(…)?`
abbrev pub increment_seq : Action (Unit {0})
increment_seq e =
    if ltb (e.seq + 1) (2 ^ 64)
    then ret (ok tt, record e { seq = e.seq + 1 })
    else ret (err sequence_number_too_high, e)

-- `self.node_id = NodeId::from(key.public())`
abbrev pub update_node_id :
    ⦃keccak : Keccak256⦄ → {K P : Type 0} → EnrKey K P → K → Action (Unit {0})
update_node_id keys key = call (of_public_key keys.public_key (keys.public key)) >>= λ node_id.
    modify (λ e. record e { node_id = node_id })
