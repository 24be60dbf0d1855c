-- ===== src/Tests/Crates.antt =====
-- Concrete functions in the place of `sha3`, `base64` and `hex`.
use enr.Prelude.{
  ℕ, ◌+◌, ◌-◌, ◌*◌, ◌<◌, ◌≡◌, ◌≢◌, refl, [], ◌∷◌, Result, ok, err, arith, length, replicate, All,
}
use enr.Prelude.Fallible.{map}
use enr.Bytes.{Bytes, text}
use enr.Crates.Hashing.{Keccak256, KeccakLaws}
use enr.Crates.Text.{Base64, Base64Laws, Hex, HexLaws}

abbrev sum : Bytes → ℕ
sum [] = 0
sum (x ∷ b) = x + sum b

-- The sum of the bytes, and 31 zeros.
instance abbrev pub sum_hash : Keccak256
sum_hash = record { hash = λ b. sum b ∷ replicate 31 0 }

pub sum_hash_laws : KeccakLaws sum_hash
sum_hash_laws = record { length-hash = λ b. refl }

-- A byte as two digits, neither of them an `x` or a colon.

abbrev pairs : Bytes → Bytes
pairs [] = []
pairs (x ∷ b) = b'0' ∷ (200 + x) ∷ pairs b

abbrev read_pairs : Bytes → Result Bytes Bytes
read_pairs (c ∷ d ∷ b) = map (λ rest. (d - 200) ∷ rest) (read_pairs b)
read_pairs [] = ok []
read_pairs (c ∷ []) = err (text "OddLength")

read_pairs-pairs : (b : Bytes) → read_pairs (pairs b) ≡ ok b
read_pairs-pairs [] = refl
read_pairs-pairs (x ∷ b) = ground (arith, read_pairs-pairs b)

length-pairs : (b : Bytes) → length (pairs b) ≡ 2 * length b
length-pairs [] = refl
length-pairs (x ∷ b) = omega (arith, length-pairs b)

pairs_alphabet : (c : ℕ) → 48 < c → c < 200 → (b : Bytes) → All (λ x. x ≢ c) (pairs b)
pairs_alphabet c low high [] = tt
pairs_alphabet c low high (x ∷ b) = (omega arith, (omega arith, pairs_alphabet c low high b))

instance abbrev pub pair_base64 : Base64
pair_base64 = record { encode = pairs; decode = read_pairs }

pub pair_base64_laws : Base64Laws pair_base64
pair_base64_laws = record {
  decode-encode = read_pairs-pairs;
  encode_alphabet = pairs_alphabet b':' (omega arith) (omega arith);
}

instance abbrev pub pair_hex : Hex
pair_hex = record { encode = pairs; decode = read_pairs; from_hex_32 = read_pairs }

pub pair_hex_laws : HexLaws pair_hex
pair_hex_laws = record {
  from_hex_32-encode = λ b h. read_pairs-pairs b;
  length-encode = length-pairs;
  encode_alphabet = pairs_alphabet b'x' (omega arith) (omega arith);
}
