-- ===== src/UnitTests/Assert.antt =====
-- What a test calls of the standard library.
use enr.Prelude.{
  Bool, true, false, ◌&&◌, ◌||◌, Option, none, some, Result, ok, err, Panics, ret, panic, List, [],
  ◌∷◌,
}
use enr.Prelude.{◌==◌ as nat_eq}
use enr.Bytes.{Bytes}
use enr.Prelude.Panicking.{◌>>=◌}
use enr.Enr.Defs.{Enr}
use enr.Enr.Action.{Action}

-- `assert!`, and `assert_eq!` by the test for equality
abbrev pub assert : Bool → Panics (Unit {0})
assert true = ret tt
assert false = panic

-- `Option`'s `PartialEq`
abbrev pub option_eq : {A : Type 0} → (A → A → Bool) → Option A → Option A → Bool
option_eq eq none none = true
option_eq eq (some a) (some b) = eq a b
option_eq eq _ _ = false

-- `Option::unwrap`, `Result::unwrap_err` and `Result::unwrap`
abbrev pub unwrap_some : {A : Type 0} → Option A → Panics A
unwrap_some none = panic
unwrap_some (some a) = ret a

abbrev pub unwrap_err : {E A : Type 0} → Result E A → Panics E
unwrap_err (ok a) = panic
unwrap_err (err e) = ret e

abbrev pub unwrap : {E A : Type 0} → Result E A → Panics A
unwrap (ok a) = ret a
unwrap (err e) = panic

-- A method on `&mut self` that is unwrapped: its value and the record that it leaves.
abbrev pub unwrap_on : {A : Type 0} → Action A → Enr → Panics (A × Enr)
unwrap_on m e = do (result, e') ← m e; a ← unwrap result; ret (a, e')

-- `vec[0]`
abbrev pub first : {A : Type 0} → List A → Panics A
first [] = panic
first (a ∷ _) = ret a

-- `for x in xs`
abbrev pub for_each : {A : Type 0} → List A → (A → Panics (Unit {0})) → Panics (Unit {0})
for_each [] f = ret tt
for_each (a ∷ xs) f = do _ ← f a; for_each xs f

-- `str::contains`
abbrev starts_with : Bytes → Bytes → Bool
starts_with [] s = true
starts_with (c ∷ prefix) [] = false
starts_with (c ∷ prefix) (d ∷ s) = nat_eq c d && starts_with prefix s

abbrev pub contains : Bytes → Bytes → Bool
contains part [] = starts_with part []
contains part (d ∷ s) = starts_with part (d ∷ s) || contains part s
