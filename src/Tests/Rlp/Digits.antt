-- ===== src/Tests/Rlp/Digits.antt =====
-- Integers as big-endian bytes without leading zeros.
use enr.Prelude.{
  ℕ, zero, suc, ◌+◌, ◌*◌, ◌/◌, ◌%◌, ◌^◌, ◌≤◌, ◌<◌, ◌≡◌, ◌≢◌, refl, sym, ◌∙◌, ap, [], ◌∷◌, ◌++◌,
  Bool, false, ◌==◌, length, length-append, if◌then◌else◌, arith, Bool-cases, inl, inr,
}
use enr.Bytes.{Bytes}
use native.Mathlib.Decide.{ℕ_discrete}

-- The digits of a number below 256 to the power of the fuel.
abbrev digits : ℕ → ℕ → Bytes
digits zero n = []
digits (suc f) n = let rest = digits f (n / 256) in if n == 0 then [] else rest ++ (n % 256) ∷ []

abbrev value : ℕ → Bytes → ℕ
value acc [] = acc
value acc (d ∷ ds) = value (acc * 256 + d) ds

abbrev pub leads_zero : Bytes → Bool
leads_zero [] = false
leads_zero (d ∷ ds) = d == 0

-- Eight digits are enough for 64 bits.
abbrev pub uint_digits : ℕ → Bytes
uint_digits n = digits 8 n

abbrev pub uint_value : Bytes → ℕ
uint_value b = value 0 b

value-append : (acc : ℕ) (ds : Bytes) (d : ℕ) → value acc (ds ++ d ∷ []) ≡ value acc ds * 256 + d
value-append acc [] d = refl
value-append acc (e ∷ ds) d = value-append (acc * 256 + e) ds d

abbrev bound : ℕ → ℕ
bound zero = 1
bound (suc f) = 256 * bound f

digits_zero : (f : ℕ) → digits f 0 ≡ []
digits_zero zero = refl
digits_zero (suc f) = refl

value-digits : (f n : ℕ) → n < bound f → value 0 (digits f n) ≡ n
value-digits zero n h = omega arith
value-digits (suc f) n h = elim (Bool-cases (n == 0)) [
  | inl none_left ↦ rw none_left (ground arith)
  | inr more ↦ rw more (
      value-append 0 (digits f (n / 256)) (n % 256)
      ∙ omega (arith, value-digits f (n / 256) (omega arith)))
]

length-digits : (f n : ℕ) → length (digits f n) ≤ f
length-digits zero n = omega arith
length-digits (suc f) n = elim (Bool-cases (n == 0)) [
  | inl none_left ↦ rw none_left (omega arith)
  | inr more ↦ rw more (
      omega (arith, length-append (digits f (n / 256)) ((n % 256) ∷ []), length-digits f (n / 256)))
]

leads_zero-append :
    (ds : Bytes) (d : ℕ) → ds ≢ [] → leads_zero ds ≡ false → leads_zero (ds ++ d ∷ []) ≡ false
leads_zero-append [] d ne h = absurd (ne refl)
leads_zero-append (e ∷ ds) d ne h = h

digits_ne : (f n : ℕ) → n < bound f → n ≢ 0 → digits f n ≢ []
digits_ne f n h ne i = ne (sym (value-digits f n h) ∙ ap (value 0) i)

digits_more : (f n : ℕ) → n ≢ 0 → digits (suc f) n ≡ digits f (n / 256) ++ (n % 256) ∷ []
digits_more f n h = ground (arith, h)

leads_zero-digits : (f n : ℕ) → n < bound f → leads_zero (digits f n) ≡ false
leads_zero-digits zero n h = refl
leads_zero-digits (suc f) n h = elim (ℕ_discrete n 0) [
  | yes p ↦ rw p refl
  | no p ↦ rw (digits_more f n p) (elim (ℕ_discrete (n / 256) 0) [
    | yes q ↦ rw (q, digits_zero f) (ground (arith, p, q))
    | no q ↦
        leads_zero-append (digits f (n / 256)) (n % 256) (digits_ne f (n / 256) (omega arith) q)
          (leads_zero-digits f (n / 256) (omega arith))
  ])
]

pub uint_value-uint_digits : (n : ℕ) → n < 2 ^ 64 → uint_value (uint_digits n) ≡ n
uint_value-uint_digits n h = value-digits 8 n h

pub leads_zero-uint_digits : (n : ℕ) → n < 2 ^ 64 → leads_zero (uint_digits n) ≡ false
leads_zero-uint_digits n h = leads_zero-digits 8 n h

pub length-uint_digits : (n : ℕ) → length (uint_digits n) ≤ 8
length-uint_digits n = length-digits 8 n

-- A number of 16 bits that is no byte has its two bytes.
pub uint_digits_pair : (n : ℕ) → 256 ≤ n → n < 2 ^ 16 → uint_digits n ≡ (n / 256) ∷ (n % 256) ∷ []
uint_digits_pair n low high =
    let last : n / 256 / 256 ≡ 0 = omega arith in
    let first : n / 256 % 256 ≡ n / 256 = omega arith in
    let high_digit : digits 7 (n / 256) ≡ (n / 256) ∷ [] =
      digits_more 6 (n / 256) (λ i. omega (arith, i)) ∙ rw (last, first, digits_zero 6) refl in
    digits_more 7 n (λ i. omega (arith, i)) ∙ rw high_digit refl
