-- ===== src/Keys/Traits.antt =====
-- src/keys/mod.rs: the traits that a key type implements, and the error of signing.
use enr.Prelude.{Option, none, Result, Panics, Bool, ◌++◌}
use enr.Bytes.{Bytes, text}
use enr.BtreeMap.{BtreeMap}
use enr.Crates.Rlp.{DecoderError}

-- A source (`Box<dyn Error>`) is its text.
pub record SigningError : Type 0 where
  pub msg : Bytes
  pub source : Option Bytes

unfoldable pub new_signing_error : Bytes → SigningError
new_signing_error msg = record { msg = msg; source = none }

-- `Display`
abbrev pub display_signing_error : SigningError → Bytes
display_signing_error e = text "Key signing error: " ++ e.msg

-- `Error::source`
unfoldable pub source : SigningError → Option Bytes
source e = e.source

-- `BTreeMap<Key, Bytes>`
abbrev pub Content : Type 0
Content = BtreeMap Bytes

-- The bytes that a signature draws from `OsRng`.
abbrev pub Entropy : Type 0
Entropy = Bytes

-- `encode_uncompressed` may panic: k256_key.rs unwraps a decompressed point.
pub record EnrPublicKey (P : Type 0) : Type 0 where
  pub verify_v4 : P → Bytes → Bytes → Bool
  pub encode : P → Bytes
  pub encode_uncompressed : P → Panics Bytes
  pub enr_key : P → Bytes

pub record EnrKey (K P : Type 0) : Type 0 where
  pub sign_v4 : Entropy → K → Bytes → Result SigningError Bytes
  pub public : K → P
  pub enr_to_public : Content → Result DecoderError P
  pub public_key : EnrPublicKey P
  pub open public_key use *

-- A key that is uniquely represented.
pub record EnrKeyUnambiguous (P : Type 0) : Type 0 where
  pub decode_public : Bytes → Result DecoderError P
