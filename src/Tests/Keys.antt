-- ===== src/Tests/Keys.antt =====
-- Concrete keys: a number is its own public key, and a signature is that number and the hash.
use enr.Prelude.{ℕ, ◌≡◌, refl, [], ◌∷◌, true, Option, none, some, arith, inr, length}
use enr.Bytes.{Bytes, ◌==◌}
use enr.Bytes.Laws.{compare_refl}
use enr.Keys.Traits.{EnrKey}
use enr.Keys.K256.{K256, K256Laws, compressed, k256_key}
use enr.Keys.Ed25519.{Ed25519, Ed25519Laws, ed25519_enr_key}
use enr.Keys.RustSecp256k1.{Secp256k1, Secp256k1Laws}
use enr.Keys.Combined.{SecretKeys, SecretKeysLaws}
use enr.Keys.Laws.{KeyLaws, IsUnambiguous}
use enr.Keys.Laws.Single.{k256-KeyLaws, k256-IsUnambiguous, ed25519-KeyLaws, ed25519-IsUnambiguous}
use enr.Tests.Rlp.{prefix_code, prefix_laws}
use enr.Tests.Crates.{sum_hash}

abbrev pub read_one : Bytes → Option ℕ
read_one (v ∷ []) = some v
read_one _ = none

abbrev pub small_k256 : K256 ℕ ℕ Bytes
small_k256 = record {
  try_sign_digest = λ rng s hash. some (s ∷ hash);
  signature_to_vec = λ g. g;
  signature_of_slice = λ b. some b;
  verifying_key = λ s. s;
  from_sec1_bytes = read_one;
  verify_digest = λ v hash g. g == (v ∷ hash);
  to_compressed = λ v. v ∷ [];
  coordinates = λ v. compressed (v ∷ []) true;
  decompress_y = λ x odd. some x;
}

same : (b : Bytes) → (b == b) ≡ true
same b = ground (arith, compare_refl b)

pub small_k256_laws : K256Laws small_k256
small_k256_laws = record {
  verify-try_sign = λ rng s hash h. ground (arith, compare_refl (s ∷ hash));
  signature_of_slice-to_vec = λ g. refl;
  coordinates_point = λ v. (v ∷ [], v ∷ [], inr (true, refl, refl));
  from_sec1-to_compressed = λ v. refl;
}

abbrev pub small_ed25519 : Ed25519 ℕ ℕ Bytes
small_ed25519 = record {
  sign = λ s msg. s ∷ sum_hash.hash msg;
  signature_to_bytes = λ g. g;
  signature_of_slice = λ b. some b;
  verifying_key_of_slice = read_one;
  verifying_key = λ s. s;
  verify = λ v msg g. g == (v ∷ sum_hash.hash msg);
  to_bytes = λ v. v ∷ [];
}

pub small_ed25519_laws : Ed25519Laws small_ed25519
small_ed25519_laws = record {
  verify-sign = λ s msg. same (s ∷ sum_hash.hash msg);
  signature_of_slice-to_bytes = λ g. refl;
  verifying_key_of_slice-to_bytes = λ v. refl;
}

abbrev pub small_secp256k1 : Secp256k1 ℕ ℕ Bytes Bytes
small_secp256k1 = record {
  message_of_slice = λ b. some b;
  sign_ecdsa_with_noncedata = λ m s nonce. s ∷ m;
  serialize_compact = λ g. g;
  signature_of_compact = λ b. some b;
  verify_ecdsa = λ m g v. g == (v ∷ m);
  from_secret_key = λ s. s;
  public_key_of_slice = read_one;
  serialize = λ v. v ∷ [];
  serialize_uncompressed = λ v. 4 ∷ v ∷ [];
}

pub small_secp256k1_laws : Secp256k1Laws small_secp256k1
small_secp256k1_laws = record {
  message_of_slice_32 = λ b h. (b, refl);
  verify-sign = λ m s nonce. same (s ∷ m);
  signature_of_compact-serialize = λ g. refl;
  public_key_of_slice-serialize = λ v. refl;
}

abbrev pub small_secrets : SecretKeys ℕ ℕ
small_secrets = record {
  secp256k1_of_slice = read_one;
  secp256k1_to_bytes = λ s. s ∷ [];
  secp256k1_random = λ rng. length rng;
  ed25519_of_slice = read_one;
  ed25519_to_bytes = λ s. s ∷ [];
  ed25519_generate = λ rng. length rng;
}

pub small_secrets_laws : SecretKeysLaws small_secrets
small_secrets_laws = record {
  secp256k1_of_slice-to_bytes = λ s. refl;
  ed25519_of_slice-to_bytes = λ e. refl;
}

-- The keys as the operations on records take them.
abbrev pub keys : EnrKey ℕ ℕ
keys = k256_key small_k256

abbrev pub ed_keys : EnrKey ℕ ℕ
ed_keys = ed25519_enr_key small_ed25519

pub keys_laws : KeyLaws keys
keys_laws = k256-KeyLaws prefix_laws small_k256 small_k256_laws

pub keys_own : IsUnambiguous keys
keys_own = k256-IsUnambiguous prefix_laws small_k256 small_k256_laws

pub ed_keys_laws : KeyLaws ed_keys
ed_keys_laws = ed25519-KeyLaws prefix_laws small_ed25519 small_ed25519_laws

pub ed_keys_own : IsUnambiguous ed_keys
ed_keys_own = ed25519-IsUnambiguous prefix_laws small_ed25519 small_ed25519_laws
