-- ===== src/Enr/Safety.antt =====
-- Methods on `&mut Enr` that return on every safe record and leave one, also where they fail: the
-- rules by which a chain of steps is shown to be such a method.
pub mod Steps
pub mod Updates
pub mod Batch
pub mod Calls
use enr.Prelude.{
  ◌^◌, ◌<◌, ◌≡◌, refl, Bool, true, false, Result, ok, err, Panics, ret, if◌then◌else◌,
}
use enr.Crates.Rlp.{Rlp}
use enr.Error.{EnrError}
use enr.Enr.Defs.{Enr}
use enr.Enr.Action.{Action, ◌>>=◌, pure, raise, try, modify}
use enr.Enr.Valid.{IsSound}

module _ ⦃rlp : Rlp⦄ where
  -- What no call relies on the signature for.
  pub record IsSafe (e : Enr) : Type 0 where
    pub seq_range : e.seq < 2 ^ 64
    pub sound : IsSound e.content

  abbrev pub Post : {A : Type 0} → (A → Type 0) → Result EnrError A → Type 0
  Post Q (ok a) = Q a
  Post Q (err x) = Unit

  -- The call returned, with a result of which `Q` holds or an error, and left a safe record.
  pub record Ends {A : Type 0} (Q : A → Type 0) (m : Panics (Result EnrError A × Enr))
      : Type 0 where
    pub result : Result EnrError A
    pub left : Enr
    pub returned : m ≡ ret (result, left)
    pub safe : IsSafe left
    pub post : Post Q result

  abbrev pub Keeps : {A : Type 0} → (A → Type 0) → Action A → Type 0
  Keeps Q m = (e : Enr) → IsSafe e → Ends Q (m e)

  abbrev pub Anything : {A : Type 0} → A → Type 0
  Anything a = Unit

  module _ {A : Type 0} {Q : A → Type 0} where
    pub Keeps-pure : (a : A) → Q a → Keeps Q (pure a)
    Keeps-pure a q e s = record { result = ok a; left = e; returned = refl; safe = s; post = q }

    pub Keeps-raise : (x : EnrError) → Keeps Q (raise x)
    Keeps-raise x e s = record { result = err x; left = e; returned = refl; safe = s; post = tt }

    pub Keeps-try : (r : Result EnrError A) → Post Q r → Keeps Q (try r)
    Keeps-try r q e s = record { result = r; left = e; returned = refl; safe = s; post = q }

    pub Keeps-if :
        (b : Bool) (m n : Action A) → Keeps Q m → Keeps Q n → Keeps Q (if b then m else n)
    Keeps-if true m n k l = k
    Keeps-if false m n k l = l

    Keeps-weaken : {R : A → Type 0} (m : Action A) → ((a : A) → Q a → R a) → Keeps Q m → Keeps R m
    Keeps-weaken {R} m f k e s =
        let d = k e s in
        record {
          result = d.result;
          left = d.left;
          returned = d.returned;
          safe = d.safe;
          post = by_result d.result d.post;
        }
      where
        by_result : (r : Result EnrError A) → Post Q r → Post R r
        by_result (ok a) q = f a q
        by_result (err x) q = tt

    -- Where the result does not matter.
    pub Keeps-Anything : (m : Action A) → Keeps Q m → Keeps Anything m
    Keeps-Anything m = Keeps-weaken m (λ _ _. tt)

  -- A chain.
  pub Keeps-then :
      {A B : Type 0} {Q : A → Type 0} {R : B → Type 0} (m : Action A) (f : A → Action B)
      → Keeps Q m
      → ((a : A) → Q a → Keeps R (f a))
      → Keeps R (m >>= f)
  Keeps-then {A} {B} {Q} {R} m f first next e s =
      let d = first e s in by_result d.result d.left d.returned d.safe d.post
    where
      by_result :
          (r : Result EnrError A) (e₁ : Enr)
          → m e ≡ ret (r, e₁)
          → IsSafe e₁
          → Post Q r
          → Ends R ((m >>= f) e)
      by_result (ok a) e₁ h s₁ q =
          let d = next a q e₁ s₁ in
          record {
            result = d.result;
            left = d.left;
            returned = rw (h, ◌>>=◌) d.returned;
            safe = d.safe;
            post = d.post;
          }
      by_result (err x) e₁ h s₁ q = record {
        result = err x;
        left = e₁;
        returned = rw (h, ◌>>=◌) refl;
        safe = s₁;
        post = tt;
      }
