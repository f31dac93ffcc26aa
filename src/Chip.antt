-- ===== src/Chip.antt =====
-- CHIP_ERROR of the Matter SDK, as far as winrt/ looks at it: success, the codes that the sources
-- name, and any other code. The numbers behind the names belong to the SDK.
use matter_winrt.Base.{ℕ, Bool, true, false}

pub data ChipError : Type 0 where
  no_error : ChipError
  invalid_argument no_memory incorrect_state decode_failed timeout cancelled busy : ChipError
  resource_exhausted not_found access_denied cert_not_trusted : ChipError
  value_not_found buffer_too_small : ChipError
  invalid_tlv_tag wrong_tlv_type end_of_tlv : ChipError
  other : ℕ → ChipError

-- `error != CHIP_NO_ERROR`.
abbrev pub is_error : ChipError → Bool
is_error no_error = false
is_error _ = true
