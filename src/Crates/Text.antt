-- ===== src/Crates/Text.antt =====
-- The crates `base64` 0.21 (the engine `URL_SAFE_NO_PAD`) and `hex` 0.4.
use enr.Prelude.{◌*◌, ◌≡◌, ◌≢◌, Result, ok, All, length}
use enr.Bytes.{Bytes}

-- A decoding error is its `Debug` text.
pub record Base64 : Type 0 where
  pub encode : Bytes → Bytes
  pub decode : Bytes → Result Bytes Bytes

-- No character of the URL-safe alphabet is a colon.
pub record Base64Laws (c : Base64) : Type 0 where
  pub decode-encode : (b : Bytes) → c.decode (c.encode b) ≡ ok b
  pub encode_alphabet : (b : Bytes) → All (λ x. x ≢ b':') (c.encode b)

pub record Hex : Type 0 where
  pub encode : Bytes → Bytes
  pub decode : Bytes → Result Bytes Bytes
  -- `FromHex` for `[u8; 32]`
  pub from_hex_32 : Bytes → Result Bytes Bytes

-- Two lower case digits for each byte.
pub record HexLaws (c : Hex) : Type 0 where
  pub from_hex_32-encode : (b : Bytes) → length b ≡ 32 → c.from_hex_32 (c.encode b) ≡ ok b
  pub length-encode : (b : Bytes) → length (c.encode b) ≡ 2 * length b
  pub encode_alphabet : (b : Bytes) → All (λ x. x ≢ b'x') (c.encode b)
