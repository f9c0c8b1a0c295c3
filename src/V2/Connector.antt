-- ===== src/V2/Connector.antt =====
-- The class of lib/inc/cpp-pcp-client/connector/v2/connector.hpp and
-- lib/src/connector/v2/connector.cc. Log calls are left out.
pub mod Dispatch
pub mod Delivery
mod Tests
use Prim.Native.String.{String, ◌++◌ as ◌<>◌}
use Prim.Native.Char.{code}
use cpp_pcp_client.Base.{
  Bool, not, ◌==◌, List, [], ◌∷◌, Option, none, some, if◌then◌else◌, Result, ok, err, ◌>>=◌, ◌>>◌,
}
use text.Mathlib.Text.{◌==◌ as str_eq}
use cpp_pcp_client.Validator.Errors as Documents
use cpp_pcp_client.Validator.Valijson.{Valijson}
use cpp_pcp_client.Validator.Registry.{register_schema}
use cpp_pcp_client.ParsedChunks.{JsonContainer}
use cpp_pcp_client.JsonWriter.{Value, string_value, document_value, JsonWriter, set_all}
use cpp_pcp_client.Connector.ClientMetadata.{
  ClientMetadata, OpenSsl, Arguments, make_client_metadata,
}
use cpp_pcp_client.Connector.Connection.Sending.{Frame, send_text}
use cpp_pcp_client.Connector.Base.{
  Thrown, document_error, schema_error, message_error, connector_error, thrown_as,
  error_message_callback, Connector, make_connector, check_connection_initialization,
  register_message_callback,
}
use cpp_pcp_client.V1.Errors as Messages
use cpp_pcp_client.V1.Serialization.{Bytes}
use cpp_pcp_client.V2.Message.{Message}
use cpp_pcp_client.V2.Schemas.{envelope_schema, error_message_schema, error_msg_type}

-- `broker.back() == '/'`; `back` is undefined for an empty string.
unfoldable pub ends_in_slash : String → Option Bool
ends_in_slash String.[] = none
ends_in_slash (String.◌∷◌ c s) = elim (ends_in_slash s) [
  | none ↦ some (code c == b'/')
  | some b ↦ some b
]

unfoldable pub with_client_type : String → String → Result Thrown String
unfolding ends_in_slash
with_client_type client_type broker = elim (ends_in_slash broker) [
  | none ↦ err (message_error (Messages.fault Messages.out_of_range))
  | some b ↦ ok (broker <> ((if b then "" else "/") <> client_type))
]

-- The loop over the brokers.
unfoldable pub with_client_types : String → List String → Result Thrown (List String)
with_client_types client_type [] = ok []
with_client_types client_type (broker ∷ brokers) = do
  uri ← with_client_type client_type broker
  uris ← with_client_types client_type brokers
  ok (uri ∷ uris)

module _ (V : Valijson) where
  -- What the bodies of the constructors register.
  unfoldable pub register_protocol : Connector V → Result Thrown (Connector V)
  register_protocol c = do
    envelope ← thrown_as schema_error (envelope_schema V)
    v ← thrown_as document_error (register_schema V c.validator envelope)
    error_message ← thrown_as schema_error (error_message_schema V)
    thrown_as document_error (
        register_message_callback V error_message error_message_callback
          (record c { validator = v }))

  unfoldable pub of_metadata : List String → ClientMetadata → Result Thrown (Connector V)
  unfolding register_protocol
  of_metadata broker_ws_uris client_metadata = do
    uris ← with_client_types client_metadata.client_type broker_ws_uris
    register_protocol (make_connector V uris client_metadata)

  -- The constructors with several brokers, and those with one.
  pub several_brokers : OpenSsl → List String → Arguments → Result Thrown (Connector V)
  unfolding of_metadata
  several_brokers ssl broker_ws_uris a = do
    client_metadata ← thrown_as connector_error (make_client_metadata ssl a)
    of_metadata broker_ws_uris client_metadata

  unfoldable one_broker : OpenSsl → String → Arguments → Result Thrown (Connector V)
  unfolding several_brokers
  one_broker ssl broker_ws_uri = several_brokers ssl (broker_ws_uri ∷ [])

  module _ (J : JsonContainer V) (W : JsonWriter V) where
    open V use {Json}
    open J use {empty, parse, get_document}
    open W use {to_string}

    -- `send` of a message, given whether websocketpp reports an error.
    unfoldable pub send_message : Bool → Message V J → Connector V → Result Thrown Frame
    send_message ec msg c = do
      thrown_as connector_error (check_connection_initialization V c)
      thrown_as connector_error (send_text ec (to_string msg.envelope))

    abbrev pub reply_entry : String → List (String × Value Json)
    reply_entry in_reply_to =
        if not (str_eq in_reply_to "") then ("in_reply_to", string_value in_reply_to) ∷ [] else []

    -- What `send` sets, in its order.
    unfoldable pub envelope_entries :
        String → String → String → Json → String → String → List (String × Value Json)
    envelope_entries msg_id target message_type data_json in_reply_to uri =
        ("id", string_value msg_id)
        ∷ ("message_type", string_value message_type)
        ∷ ("target", string_value target)
        ∷ ("sender", string_value uri)
        ∷ ("data", document_value data_json)
        ∷ reply_entry in_reply_to

    unfoldable pub envelope_content : String → String → String → Json → String → String → Json
    unfolding envelope_entries
    envelope_content msg_id target message_type data_json in_reply_to uri =
        set_all V J W empty (envelope_entries msg_id target message_type data_json in_reply_to uri)

    -- `send` with JSON data, given what `get_UUID` answers: the identifier and the frame.
    unfoldable pub send :
        Bool
        → String
        → String
        → String
        → Json
        → String
        → Connector V
        → Result Thrown (String × Frame)
    unfolding send_message
    send ec msg_id target message_type data_json in_reply_to c = do
      frame ←
          send_message ec
            (record {
              envelope =
                  envelope_content msg_id target message_type data_json in_reply_to
                    c.client_metadata.uri;
            })
            c
      ok (msg_id, frame)

    unfoldable send_data_text :
        Bool
        → String
        → String
        → String
        → Bytes
        → String
        → Connector V
        → Result Thrown (String × Frame)
    unfolding send
    send_data_text ec msg_id target message_type data_txt in_reply_to c = elim (parse data_txt) [
      | none ↦ err (document_error Documents.data_parse_error)
      | some data_json ↦ send ec msg_id target message_type data_json in_reply_to c
    ]

    unfoldable pub as_json_container : String → Documents.Outcome Json
    as_json_container val = get_document (set_all V J W empty (("", string_value val) ∷ [])) ""

    pub send_error :
        Bool → String → String → String → String → Connector V → Result Thrown (String × Frame)
    unfolding send as_json_container
    send_error ec msg_id target in_reply_to description c = do
      error_data ← thrown_as document_error (as_json_container description)
      send ec msg_id target error_msg_type error_data in_reply_to c
