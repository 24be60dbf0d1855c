-- ===== src/Bytes.antt =====
-- Byte strings (`Vec<u8>`, `&[u8]`, `Bytes`, and `String` as its UTF-8), and the byte strings that
-- lib.rs and the keys name.
mod Order
mod Utf8
pub mod Laws
unfoldable pub use Order.{Bytes, compare_bytes, ◌==◌}
unfoldable pub use Utf8.{from_utf8_lossy}
use Prim.Native.Char.{code}
use Prim.Native.String.{String}
use enr.Prelude.{[], ◌∷◌}

-- the bytes of an ASCII literal
abbrev pub text : String → Bytes
text String.[] = []
text (String.◌∷◌ c s) = code c ∷ text s

abbrev pub id_key : Bytes
id_key = b'i' ∷ b'd' ∷ []

abbrev pub ip_key : Bytes
ip_key = b'i' ∷ b'p' ∷ []

abbrev pub ip6_key : Bytes
ip6_key = b'i' ∷ b'p' ∷ b'6' ∷ []

abbrev pub tcp_key : Bytes
tcp_key = b't' ∷ b'c' ∷ b'p' ∷ []

abbrev pub tcp6_key : Bytes
tcp6_key = b't' ∷ b'c' ∷ b'p' ∷ b'6' ∷ []

abbrev pub udp_key : Bytes
udp_key = b'u' ∷ b'd' ∷ b'p' ∷ []

abbrev pub udp6_key : Bytes
udp6_key = b'u' ∷ b'd' ∷ b'p' ∷ b'6' ∷ []

abbrev pub secp256k1_key : Bytes
secp256k1_key = b's' ∷ b'e' ∷ b'c' ∷ b'p' ∷ b'2' ∷ b'5' ∷ b'6' ∷ b'k' ∷ b'1' ∷ []

abbrev pub ed25519_key : Bytes
ed25519_key = b'e' ∷ b'd' ∷ b'2' ∷ b'5' ∷ b'5' ∷ b'1' ∷ b'9' ∷ []

-- the identity scheme
abbrev pub v4 : Bytes
v4 = b'v' ∷ b'4' ∷ []
