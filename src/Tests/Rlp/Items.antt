-- ===== src/Tests/Rlp/Items.antt =====
-- The items of a list, read one after the other.
use enr.Prelude.{
  ℕ, zero, suc, ◌+◌, ◌≤◌, ◌≡◌, refl, ◌∙◌, ap, List, [], ◌∷◌, ◌++◌, true, ok, length, length-append,
  take, drop, leb, if◌then◌else◌, arith, All, Bool-cases, inl, inr,
}
use enr.Bytes.{Bytes}
use enr.Crates.Rlp.{PayloadInfo}
use enr.Tests.Rlp.Code.{payload_info, join}

-- The bytes are one item.
abbrev pub IsOne : Bytes → Type 0
IsOne b = (p : PayloadInfo) × (payload_info b ≡ ok p) × (p.header_len + p.value_len ≡ length b)

-- The items of a payload, one for each unit of fuel: a payload has no more items than bytes.
abbrev pub split : ℕ → Bytes → List Bytes
split zero b = []
split (suc fuel) [] = []
split (suc fuel) (zero ∷ []) = []
split (suc fuel) (zero ∷ n ∷ b) =
    let rest = split fuel (drop n b) in if leb n (length b) then (0 ∷ n ∷ take n b) ∷ rest else []
split (suc fuel) (suc n ∷ b) =
    let rest = split fuel (drop n b) in if leb n (length b) then (suc n ∷ take n b) ∷ rest else []

abbrev pub iter : Bytes → List Bytes
iter [] = []
iter (n ∷ []) = []
iter (n ∷ m ∷ payload) = split (length payload) payload

length-take : (n : ℕ) (b : Bytes) → n ≤ length b → length (take n b) ≡ n
length-take zero b h = refl
length-take (suc n) [] h = absurd (omega (arith, h))
length-take (suc n) (x ∷ b) h = omega (arith, length-take n b (omega arith))

take-append : (b rest : Bytes) → take (length b) (b ++ rest) ≡ b
take-append [] rest = refl
take-append (x ∷ b) rest = rw (take-append b rest) refl

drop-append : (b rest : Bytes) → drop (length b) (b ++ rest) ≡ rest
drop-append [] rest = refl
drop-append (x ∷ b) rest = drop-append b rest

pub split-IsOne : (fuel : ℕ) (b : Bytes) → All IsOne (split fuel b)
split-IsOne zero b = tt
split-IsOne (suc fuel) [] = tt
split-IsOne (suc fuel) (zero ∷ []) = tt
split-IsOne (suc fuel) (zero ∷ n ∷ b) = elim (Bool-cases (leb n (length b))) [
  | inl fits ↦ rw fits (
    (record { header_len = 2; value_len = n }, refl, omega (arith, length-take n b (ground arith))),
    split-IsOne fuel (drop n b),
  )
  | inr short ↦ rw short tt
]
split-IsOne (suc fuel) (suc n ∷ b) = elim (Bool-cases (leb n (length b))) [
  | inl fits ↦ rw fits (
    (record { header_len = 1; value_len = n }, refl, omega (arith, length-take n b (ground arith))),
    split-IsOne fuel (drop n b),
  )
  | inr short ↦ rw short tt
]

pub iter-IsOne : (b : Bytes) → All IsOne (iter b)
iter-IsOne [] = tt
iter-IsOne (n ∷ []) = tt
iter-IsOne (n ∷ m ∷ payload) = split-IsOne (length payload) payload

-- The first item of a payload is found, whatever follows.
split-append :
    (fuel : ℕ) (b rest : Bytes) → IsOne b → split (suc fuel) (b ++ rest) ≡ b ∷ split fuel rest
split-append fuel [] rest (p, i, j) = absurd (ground arith)
split-append fuel (zero ∷ []) rest (p, i, j) = absurd (ground arith)
split-append fuel (zero ∷ n ∷ b) rest (p, i, j) =
    let whole : n ≡ length b = ground arith in
    let fits : leb (length b) (length (b ++ rest)) ≡ true = ground (arith, length-append b rest) in
    rw (whole, fits, take-append b rest, drop-append b rest) refl
split-append fuel (suc n ∷ b) rest (p, i, j) =
    let whole : n ≡ length b = ground arith in
    let fits : leb (length b) (length (b ++ rest)) ≡ true = ground (arith, length-append b rest) in
    rw (whole, fits, take-append b rest, drop-append b rest) refl

length-item : (b : Bytes) → IsOne b → 1 ≤ length b
length-item [] (p, i, j) = absurd (ground arith)
length-item (x ∷ b) one = omega arith

split-join :
    (fuel : ℕ) (items : List Bytes)
    → All IsOne items
    → length items ≤ fuel
    → split fuel (join items) ≡ items
split-join zero [] all h = refl
split-join (suc fuel) [] all h = refl
split-join zero (b ∷ items) all h = absurd (omega arith)
split-join (suc fuel) (b ∷ items) (one, all) h =
    split-append fuel b (join items) one ∙ ap (λ l. b ∷ l) (split-join fuel items all (omega arith))

length-items : (items : List Bytes) → All IsOne items → length items ≤ length (join items)
length-items [] all = omega arith
length-items (b ∷ items) (one, all) =
    omega (arith, length-append b (join items), length-item b one, length-items items all)

pub iter-join : (n m : ℕ) (items : List Bytes) → All IsOne items → iter (n ∷ m ∷ join items) ≡ items
iter-join n m items all = split-join (length (join items)) items all (length-items items all)
