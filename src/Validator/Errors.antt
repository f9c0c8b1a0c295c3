-- ===== src/Validator/Errors.antt =====
-- The exceptions of lib/inc/cpp-pcp-client/validator/validator.hpp and of leatherman's
-- JsonContainer. `assertion_failed` is the abort of `assert(false)`.
use Prim.Native.String.{String}
use cpp_pcp_client.Base.{Bool, true, false, Result}

pub data Error : Type 0 where
  data_parse_error data_type_error data_key_error assertion_failed : Error
  schema_redefinition_error schema_not_found_error validation_error : String → Error

-- What `catch (validator_error&)` catches.
abbrev pub is_validator_error : Error → Bool
is_validator_error (schema_redefinition_error n) = true
is_validator_error (schema_not_found_error n) = true
is_validator_error (validation_error n) = true
is_validator_error _ = false

abbrev pub Outcome {ℓ} : Type ℓ → Type ℓ
Outcome A = Result Error A
