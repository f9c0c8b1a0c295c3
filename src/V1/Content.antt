-- ===== src/V1/Content.antt =====
-- `Message::getParsedChunks` of lib/src/protocol/v1/message.cc.
pub mod Described
pub mod Reported
pub mod Outcomes
pub mod Returns
mod Tests
use Prim.Native.String.{String}
use cpp_pcp_client.Base.{
  ℕ, ◌+◌, ◌%◌, ◌^◌, Bool, true, List, [], ◌∷◌, ◌++◌, none, some, if◌then◌else◌, ok, err, ◌>>=◌,
  ◌>>◌,
}
use cpp_pcp_client.Validator.Errors.{Error, data_parse_error, is_validator_error, Outcome}
use cpp_pcp_client.Validator.Valijson.{Valijson}
use cpp_pcp_client.Validator.Schema.{json, binary}
use cpp_pcp_client.Validator.Registry.{Validator, validate, get_schema_content_type}
use cpp_pcp_client.ParsedChunks.{
  JsonContainer, ParsedChunks, without_data, with_invalid_data, with_json_data, with_binary_data,
}
use cpp_pcp_client.V1.Serialization.{Bytes}
use cpp_pcp_client.V1.Chunks.{MessageChunk}
use cpp_pcp_client.V1.Message.{Message, has_data}

abbrev pub envelope_schema_name : String
envelope_schema_name = "envelope_schema"

abbrev pub debug_schema_name : String
debug_schema_name = "debug_schema"

abbrev pub debug_item_schema_name : String
debug_item_schema_name = "debug_item_schema"

-- The handlers for data_parse_error and validator_error.
abbrev pub is_caught : Error → Bool
is_caught data_parse_error = true
is_caught e = is_validator_error e

module _ (V : Valijson) (J : JsonContainer V) where
  open V use {Json}
  open J use {parse, get_string, get_documents}

  -- The constructor of a JsonContainer from a text.
  abbrev pub parse_json : Bytes → Outcome Json
  parse_json text = elim (parse text) [ none ↦ err data_parse_error | some d ↦ ok d ]

  validate_hops : Validator V → List Json → Outcome (Unit {0})
  validate_hops v [] = ok tt
  validate_hops v (hop ∷ hops) = do validate V v hop debug_item_schema_name; validate_hops v hops

  -- The try block of a debug chunk.
  unfoldable pub parse_debug : Validator V → MessageChunk → Outcome Json
  unfolding validate_hops
  parse_debug v chunk = do
    parsed_debug ← parse_json chunk.content
    validate V v parsed_debug debug_schema_name
    hops ← get_documents parsed_debug "hops"
    validate_hops v hops
    ok parsed_debug

  -- What the try block and its handlers add to the valid contents and the number of invalid ones.
  count_debug : Outcome Json → List Json × ℕ → Outcome (List Json × ℕ)
  count_debug (ok d) (valid, invalid) = ok (valid ++ d ∷ [], invalid)
  count_debug (err e) (valid, invalid) =
      if is_caught e then ok (valid, (invalid + 1) % 2 ^ 32) else err e

  unfoldable pub parse_debug_chunks :
      Validator V → List MessageChunk → List Json × ℕ → Outcome (List Json × ℕ)
  unfolding count_debug
  parse_debug_chunks v [] so_far = ok so_far
  parse_debug_chunks v (c ∷ cs) so_far = do
    next ← count_debug (parse_debug v c) so_far
    parse_debug_chunks v cs next

  -- The try block of JSON data.
  unfoldable pub parse_data : Validator V → String → Bytes → Outcome Json
  parse_data v message_type content = do
    document ← parse_json content
    validate V v document message_type
    ok document

  unfoldable pub with_data : Json → Outcome Json → List Json × ℕ → Outcome (ParsedChunks V)
  with_data envelope (ok document) (valid, invalid) =
      ok (with_json_data V J envelope document valid invalid)
  with_data envelope (err e) (valid, invalid) =
      if is_caught e then ok (with_invalid_data V J envelope true valid invalid) else err e

  unfoldable pub data_content :
      Validator V → Json → Bytes → List Json × ℕ → Outcome (ParsedChunks V)
  unfolding with_data
  data_content v envelope content debugs = do
    message_type ← get_string envelope "message_type"
    content_type ← get_schema_content_type V v message_type
    elim content_type [
      | json ↦ with_data envelope (parse_data v message_type content) debugs
      | binary ↦ ok (with_binary_data V J envelope content debugs.0 debugs.1)
    ]

  unfoldable pub get_parsed_chunks : Message → Validator V → Outcome (ParsedChunks V)
  get_parsed_chunks m v = do
    envelope ← parse_json m.envelope_chunk.content
    validate V v envelope envelope_schema_name
    msg_id ← get_string envelope "id"
    debugs ← parse_debug_chunks v m.debug_chunks ([], 0)
    (if has_data m
        then data_content v envelope m.data_chunk.content debugs
        else ok (without_data V J envelope debugs.0 debugs.1))
