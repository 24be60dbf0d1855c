-- ===== src/Tests/KeyTypes.antt =====
-- The key types over the concrete crates.
use enr.Prelude.{◌≡◌, refl, [], ret, panic, replicate}
use enr.Keys.MockRng
use enr.Keys.K256.{k256_key, k256_unambiguous}
use enr.Keys.Ed25519.{ed25519_enr_key, ed25519_unambiguous}
use enr.Keys.RustSecp256k1.{secp256k1_enr_key, secp256k1_unambiguous}
use enr.Keys.Combined.{combined_key}
use enr.Keys.Laws.{KeyLaws, IsUnambiguous, IsDecoded}
use enr.Keys.Laws.Single.{k256_lawful, ed25519_lawful, secp256k1_lawful}
use enr.Keys.Laws.Both.{combined-KeyLaws}
use enr.Tests.Rlp.{prefix_code, prefix_laws}
use enr.Tests.Crates.{sum_hash, sum_hash_laws}
use enr.Tests.Keys.{
  keys, keys_laws, ed_keys, ed_keys_laws, small_k256, small_k256_laws, small_ed25519,
  small_ed25519_laws, small_secp256k1, small_secp256k1_laws,
}

k256_lawful_example :
    KeyLaws (k256_key small_k256)
    × IsUnambiguous (k256_key small_k256)
    × IsDecoded (k256_key small_k256) (k256_unambiguous small_k256)
k256_lawful_example = k256_lawful prefix_laws small_k256 small_k256_laws

ed25519_lawful_example :
    KeyLaws (ed25519_enr_key small_ed25519)
    × IsUnambiguous (ed25519_enr_key small_ed25519)
    × IsDecoded (ed25519_enr_key small_ed25519) (ed25519_unambiguous small_ed25519)
ed25519_lawful_example = ed25519_lawful prefix_laws small_ed25519 small_ed25519_laws

secp256k1_lawful_example :
    KeyLaws (secp256k1_enr_key small_secp256k1)
    × IsUnambiguous (secp256k1_enr_key small_secp256k1)
    × IsDecoded (secp256k1_enr_key small_secp256k1) (secp256k1_unambiguous small_secp256k1)
secp256k1_lawful_example =
    secp256k1_lawful prefix_laws small_secp256k1 small_secp256k1_laws sum_hash_laws

combined-KeyLaws_example : KeyLaws (combined_key keys ed_keys)
combined-KeyLaws_example = combined-KeyLaws keys ed_keys keys_laws ed_keys_laws

-- The tests' generator fills the 32 bytes that a signature asks for.
mocked :
    (MockRng.fill_bytes (replicate 32 0) ≡ ret MockRng.mock_ecdsa_nonce_additional_data)
    × (MockRng.fill_bytes [] ≡ panic)
unfolding MockRng.fill_bytes
mocked = (refl, refl)
