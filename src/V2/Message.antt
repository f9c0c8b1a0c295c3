-- ===== src/V2/Message.antt =====
-- lib/inc/cpp-pcp-client/protocol/v2/message.hpp and lib/src/protocol/v2/message.cc. Log calls are
-- left out.
pub mod Reported
mod Tests
use cpp_pcp_client.Base.{Bool, true, false, [], none, some, if◌then◌else◌, ok, err, ◌>>=◌, ◌>>◌}
use cpp_pcp_client.Validator.Errors.{
  Error, data_parse_error, data_type_error, is_validator_error, Outcome,
}
use cpp_pcp_client.Validator.Valijson.{Valijson}
use cpp_pcp_client.Validator.Registry.{Validator, validate}
use cpp_pcp_client.ParsedChunks.{
  JsonContainer, ParsedChunks, without_data, with_invalid_data, with_json_data,
}
use cpp_pcp_client.V1.Serialization.{Bytes}
use cpp_pcp_client.V2.Schemas.{envelope_schema_name}

-- The handlers for data_type_error and validator_error.
abbrev pub is_caught : Error → Bool
is_caught data_type_error = true
is_caught e = is_validator_error e

module _ (V : Valijson) (J : JsonContainer V) where
  open V use {Json}
  open J use {parse, includes, get_string, get_document}

  pub record Message : Type 0 where
    pub envelope : Json

  -- The constructor from a transport message.
  unfoldable pub of_transport : Bytes → Outcome Message
  of_transport text = elim (parse text) [
    | none ↦ err data_parse_error
    | some document ↦ ok (record { envelope = document })
  ]

  after_validate : Outcome (Unit {0}) → Outcome Bool
  after_validate (ok _) = ok true
  after_validate (err e) = if is_caught e then ok false else err e

  unfoldable pub validate_data : Json → Validator V → Outcome Bool
  unfolding after_validate
  validate_data envelope v = do
    message_type ← get_string envelope "message_type"
    document ← get_document envelope "data"
    after_validate (validate V v document message_type)

  data_chunks : Json → Validator V → Outcome (ParsedChunks V)
  data_chunks envelope v = do
    valid ← validate_data envelope v
    (if valid
        then (do
          document ← get_document envelope "data"
          ok (with_json_data V J envelope document [] 0))
        else ok (with_invalid_data V J envelope true [] 0))

  unfoldable pub get_parsed_chunks : Message → Validator V → Outcome (ParsedChunks V)
  unfolding data_chunks
  get_parsed_chunks m v = do
    validate V v m.envelope envelope_schema_name
    (if includes m.envelope "data"
        then data_chunks m.envelope v
        else ok (without_data V J m.envelope [] 0))
