-- ===== src/V1/Message.antt =====
-- lib/inc/cpp-pcp-client/protocol/v1/message.hpp and lib/src/protocol/v1/message.cc: the message
-- class but for its parser, which is in Parser. Log calls are left out.
pub mod Encode
pub mod Validation
pub mod Built
pub mod Oversized
use cpp_pcp_client.Base.{
  ℕ, ◌%◌, ◌^◌, Bool, true, false, not, List, [], ◌∷◌, ◌++◌, none, some, ◌==◌, if◌then◌else◌, length,
  ok, err, ◌>>◌, guard, ◌>>=◌,
}
use cpp_pcp_client.V1.Errors.{
  unsupported_version_error, invalid_chunk_error, unknown_descriptor, invalid_size, fault,
  assertion_failed, Outcome,
}
use cpp_pcp_client.V1.Serialization.{Bytes, Host, serialize_u8}
use cpp_pcp_client.V1.Chunks.{MessageChunk, no_chunk, type_bits, names, serialize_on}

abbrev pub supported_versions : List ℕ
supported_versions = 1 ∷ []

-- SUPPORTED_VERSIONS.back(), the version of new messages.
abbrev pub last_version : ℕ
last_version = 1

pub record Message : Type 0 where
  pub version : ℕ
  pub envelope_chunk : MessageChunk
  pub data_chunk : MessageChunk
  pub debug_chunks : List MessageChunk

found_in : ℕ → List ℕ → Bool
found_in v [] = false
found_in v (x ∷ xs) = if x == v then true else found_in v xs

unfoldable pub validate_version : ℕ → Outcome (Unit {0})
unfolding found_in
validate_version version =
    guard (found_in version supported_versions) (unsupported_version_error version)

-- The assert stands in the branch that reports a declared size of one byte.
report_size : MessageChunk → Outcome (Unit {0})
report_size chunk =
    if chunk.size == 1
    then guard (not (length chunk.content == 1)) (fault assertion_failed)
    else ok tt

unfoldable pub validate_chunk : MessageChunk → Outcome (Unit {0})
unfolding names report_size
validate_chunk chunk = elim (names (type_bits chunk.descriptor)) [
  | none ↦ err (invalid_chunk_error unknown_descriptor)
  | some _ ↦
      if chunk.size == length chunk.content % 2 ^ 32
      then ok tt
      else report_size chunk >> err (invalid_chunk_error invalid_size)
]

-- The three constructors from chunks.
unfoldable pub of_envelope : MessageChunk → Outcome Message
of_envelope envelope = do
  validate_chunk envelope
  ok (record {
    version = last_version;
    envelope_chunk = envelope;
    data_chunk = no_chunk;
    debug_chunks = [];
  })

unfoldable pub of_data : MessageChunk → MessageChunk → Outcome Message
of_data envelope data_chunk = do
  validate_chunk envelope
  validate_chunk data_chunk
  ok (record {
    version = last_version;
    envelope_chunk = envelope;
    data_chunk = data_chunk;
    debug_chunks = [];
  })

unfoldable pub of_debug : MessageChunk → MessageChunk → MessageChunk → Outcome Message
of_debug envelope data_chunk debug_chunk = do
  validate_chunk envelope
  validate_chunk data_chunk
  validate_chunk debug_chunk
  ok (record {
    version = last_version;
    envelope_chunk = envelope;
    data_chunk = data_chunk;
    debug_chunks = debug_chunk ∷ [];
  })

unfoldable pub set_data_chunk : Message → MessageChunk → Outcome Message
set_data_chunk m chunk = do validate_chunk chunk; ok (record m { data_chunk = chunk })

unfoldable pub add_debug_chunk : Message → MessageChunk → Outcome Message
add_debug_chunk m chunk = do
  validate_chunk chunk
  ok (record m { debug_chunks = m.debug_chunks ++ chunk ∷ [] })

-- `data_chunk_.descriptor != 0`.
abbrev pub is_set : MessageChunk → Bool
is_set c = not (c.descriptor == 0)

unfoldable pub has_data : Message → Bool
has_data m = is_set m.data_chunk

unfoldable pub has_debug : Message → Bool
has_debug m = elim m.debug_chunks [ [] ↦ false | _ ∷ _ ↦ true ]

serialize_debug : Host → List MessageChunk → Bytes → Outcome Bytes
serialize_debug h [] buffer = ok buffer
serialize_debug h (c ∷ cs) buffer = do next ← serialize_on h c buffer; serialize_debug h cs next

unfoldable pub get_serialized : Host → Message → Outcome Bytes
unfolding has_data has_debug serialize_debug
get_serialized h m = do
  b1 ← serialize_u8 h m.version 1 []
  b2 ← serialize_on h m.envelope_chunk b1
  b3 ← if has_data m then serialize_on h m.data_chunk b2 else ok b2
  if has_debug m then serialize_debug h m.debug_chunks b3 else ok b3
