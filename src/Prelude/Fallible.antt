-- ===== src/Prelude/Fallible.antt =====
-- The methods of `Result`; `>>=` is the operator `?`.
use mathlib.Core.Option.{Option, none, some}
use mathlib.Core.Path.{◌≡◌, refl}
use enr.Prelude.Outcome.{Result, ok, err}

module _ {ℓ κ μ} {E : Type ℓ} {A : Type κ} {B : Type μ} where
  infixl 5 ◌>>=◌
  abbrev pub ◌>>=◌ : Result E A → (A → Result E B) → Result E B
  ok a >>= f = f a
  err e >>= f = err e

  -- Inversion of a successful chain.
  pub >>=-ok :
      (m : Result E A) (f : A → Result E B) {b : B}
      → (m >>= f) ≡ ok b
      → (a : A) × (m ≡ ok a) × (f a ≡ ok b)
  >>=-ok (ok a) f h = (a, refl, h)
  >>=-ok (err e) f h = absurd (cc)

  -- `Result::map`
  abbrev pub map : (A → B) → Result E A → Result E B
  map f (ok a) = ok (f a)
  map f (err e) = err e

  -- `Result::map_err`
  abbrev pub map_err : (E → B) → Result E A → Result B A
  map_err f (ok a) = ok a
  map_err f (err e) = err (f e)

  -- `Result::or_else`
  abbrev pub or_else : Result E A → (E → Result B A) → Result B A
  or_else (ok a) f = ok a
  or_else (err e) f = f e

-- `Result::ok`
abbrev pub to_option {ℓ κ} : {E : Type ℓ} {A : Type κ} → Result E A → Option A
to_option (ok a) = some a
to_option (err e) = none
