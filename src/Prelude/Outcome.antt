-- ===== src/Prelude/Outcome.antt =====
-- What a Rust call can end in: a `Result`, and a panic as a value of its own.
use mathlib.Core.Option.{Option, none, some}

-- `Result<A, E>`
pub data Result {ℓ κ} (E : Type ℓ) (A : Type κ) : Type (ℓ ⊔ κ) where
  ok : A → Result E A
  err : E → Result E A

-- A call that returns, or that panics (`expect`, a slice copied at the wrong length).
pub data Panics {ℓ} (A : Type ℓ) : Type ℓ where
  ret : A → Panics A
  panic : Panics A

-- `Option::ok_or`
abbrev pub ok_or {ℓ κ} : {E : Type ℓ} {A : Type κ} → Option A → E → Result E A
ok_or none e = err e
ok_or (some a) e = ok a

-- `Result::expect`
abbrev pub expect {ℓ κ} : {E : Type ℓ} {A : Type κ} → Result E A → Panics A
expect (ok a) = ret a
expect (err e) = panic
