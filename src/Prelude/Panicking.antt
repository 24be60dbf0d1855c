-- ===== src/Prelude/Panicking.antt =====
-- Code that calls what may panic.
use enr.Prelude.Outcome.{Panics, ret, panic}

module _ {ℓ κ} {A : Type ℓ} {B : Type κ} where
  infixl 5 ◌>>=◌
  abbrev pub ◌>>=◌ : Panics A → (A → Panics B) → Panics B
  ret a >>= f = f a
  panic >>= f = panic
