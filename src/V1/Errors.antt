-- ===== src/V1/Errors.antt =====
-- lib/inc/cpp-pcp-client/protocol/v1/errors.hpp. The text that an exception carries is an enum
-- here. `fault` stands for what C++ leaves undefined or aborts on: a read or a write outside a
-- buffer and a failed assert; `out_of_fuel` is a fault of the model alone.
use cpp_pcp_client.Base.{ℕ, Result}

pub data Reason : Type 0 where
  envelope_too_small no_envelope_descriptor size_too_large no_envelope : Reason
  invalid_chunk_descriptor missing_chunk_content multiple_data_chunks bad_allocation : Reason

pub data ChunkReason : Type 0 where
  unknown_descriptor invalid_size : ChunkReason

pub data Fault : Type 0 where
  out_of_range buffer_overrun assertion_failed out_of_fuel : Fault

pub data Error : Type 0 where
  message_serialization_error : Reason → Error
  unsupported_version_error : ℕ → Error
  invalid_chunk_error : ChunkReason → Error
  fault : Fault → Error

abbrev pub Outcome {ℓ} : Type ℓ → Type ℓ
Outcome A = Result Error A
