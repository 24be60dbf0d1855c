-- ===== src/Keys/MockRng.antt =====
-- `MockOsRng` of src/keys/rust_secp256k1.rs, which the crate's tests put in the place of `OsRng`.
use enr.Prelude.{ℕ, [], ◌∷◌, Result, Panics, ret, panic, length, if◌then◌else◌}
use enr.Prelude.{◌==◌ as nat_eq}
use enr.Bytes.{Bytes}

abbrev pub mock_ecdsa_nonce_additional_data : Bytes
mock_ecdsa_nonce_additional_data =
    186 ∷ 170 ∷ 170 ∷ 173 ∷ 186 ∷ 170 ∷ 170 ∷ 173 ∷ 186 ∷ 170 ∷ 170 ∷ 173 ∷ 186 ∷ 170 ∷ 170 ∷ 173
    ∷ 186 ∷ 170 ∷ 170 ∷ 173 ∷ 186 ∷ 170 ∷ 170 ∷ 173 ∷ 186 ∷ 170 ∷ 170 ∷ 173 ∷ 186 ∷ 170 ∷ 170 ∷ 173
    ∷ []

-- `unimplemented!()`
unfoldable pub next_u32 : Panics ℕ
next_u32 = panic

unfoldable pub next_u64 : Panics ℕ
next_u64 = panic

unfoldable pub try_fill_bytes : {E : Type 0} → Bytes → Panics (Result E (Unit {0}))
try_fill_bytes _ = panic

-- The buffer after the call; the assertion, and `copy_from_slice`, panic on another length.
unfoldable pub fill_bytes : Bytes → Panics Bytes
fill_bytes dest =
    if nat_eq (length dest) (length mock_ecdsa_nonce_additional_data)
    then ret mock_ecdsa_nonce_additional_data
    else panic
