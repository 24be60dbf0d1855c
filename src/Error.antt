-- ===== src/Error.antt =====
-- src/error.rs: the errors of the operations on a record.
use enr.Bytes.{Bytes, text}

pub data EnrError : Type 0 where
  exceeds_max_size : EnrError
  sequence_number_too_high : EnrError
  signing_error : EnrError
  unsupported_identity_scheme : EnrError
  invalid_rlp_data : Bytes → EnrError

-- `Display`
abbrev pub display : EnrError → Bytes
display exceeds_max_size = text "enr exceeds max size"
display sequence_number_too_high = text "sequence number too large"
display signing_error = text "signing error"
display unsupported_identity_scheme = text "unsupported identity scheme"
display (invalid_rlp_data _) = text "invalid rlp data"
