-- ===== src/V1/Connector/Sending.antt =====
-- What the connector of lib/src/connector/v1/connector.cc sends: `send` with its overloads,
-- `sendError` and `createEnvelope`. Log calls are left out.
use Prim.Native.String.{String}
use cpp_pcp_client.Base.{ℕ, Bool, true, false, List, [], ◌∷◌, Result, ok, ◌>>=◌, ◌>>◌}
use cpp_pcp_client.Validator.Valijson.{Valijson}
use cpp_pcp_client.ParsedChunks.{JsonContainer}
use cpp_pcp_client.JsonWriter.{Value, string_value, strings_value, flag_value, JsonWriter, set_all}
use cpp_pcp_client.Connector.Connection.Sending.{Frame, send_binary}
use cpp_pcp_client.Connector.Base.{
  Thrown, document_error, schema_error, message_error, connector_error, thrown_as, Callback,
  associate_response_callback, error_message_callback, ttl_message_callback,
  check_connection_initialization, register_message_callback,
}
use cpp_pcp_client.Connector.Base
use cpp_pcp_client.V1.Serialization.{Bytes, Host}
use cpp_pcp_client.V1.Chunks.{MessageChunk, make_chunk, envelope, data_type, debug}
use cpp_pcp_client.V1.Message.{Message, of_data, add_debug_chunk, get_serialized}
use cpp_pcp_client.V1.Schemas.{error_msg_type}
use cpp_pcp_client.V1.Connector.{Stamp}

module _ (V : Valijson) where
  -- `send`, given whether websocketpp reports an error.
  unfoldable pub send : Host → Bool → Message → Base.Connector V → Result Thrown Frame
  send h ec msg c = do
    thrown_as connector_error (check_connection_initialization V c)
    serialized_msg ← thrown_as message_error (get_serialized h msg)
    thrown_as connector_error (send_binary ec serialized_msg)

  module _ (J : JsonContainer V) (W : JsonWriter V) where
    open V use {Json}
    open J use {empty}
    open W use {to_string}

    abbrev pub report_entry : Bool → List (String × Value Json)
    report_entry true = ("destination_report", flag_value true) ∷ []
    report_entry false = []

    -- What `createEnvelope` sets, in its order.
    unfoldable pub envelope_entries :
        List String → String → ℕ → Bool → Stamp → String → List (String × Value Json)
    envelope_entries targets message_type timeout destination_report stamp uri =
        ("id", string_value stamp.uuid)
        ∷ ("message_type", string_value message_type)
        ∷ ("targets", strings_value targets)
        ∷ ("expires", string_value (stamp.iso8601_time timeout))
        ∷ ("sender", string_value uri)
        ∷ report_entry destination_report

    unfoldable pub envelope_content : List String → String → ℕ → Bool → Stamp → String → Json
    unfolding envelope_entries
    envelope_content targets message_type timeout destination_report stamp uri =
        set_all V J W empty
          (envelope_entries targets message_type timeout destination_report stamp uri)

    -- The chunk; the identifier is `stamp.uuid`.
    unfoldable pub create_envelope :
        List String → String → ℕ → Bool → Stamp → Base.Connector V → MessageChunk
    create_envelope targets message_type timeout destination_report stamp c = make_chunk envelope (
        to_string (
          envelope_content targets message_type timeout destination_report stamp
            c.client_metadata.uri))

    unfoldable pub add_debug_chunks : List Json → Message → Result Thrown Message
    add_debug_chunks [] msg = ok msg
    add_debug_chunks (debug_content ∷ rest) msg = do
      next ←
          thrown_as message_error (add_debug_chunk msg (make_chunk debug (to_string debug_content)))
      add_debug_chunks rest next

    -- `sendMessage`: the identifier, and what is handed to websocketpp.
    unfoldable pub send_message :
        Host
        → Bool
        → Stamp
        → List String
        → String
        → ℕ
        → Bool
        → Bytes
        → List Json
        → Base.Connector V
        → Result Thrown (String × Frame)
    send_message h ec stamp targets message_type timeout destination_report data_txt debugs c = do
      let envelope_chunk = create_envelope targets message_type timeout destination_report stamp c
      msg ← thrown_as message_error (of_data envelope_chunk (make_chunk data_type data_txt))
      full ← add_debug_chunks debugs msg
      frame ← send h ec full c
      ok (stamp.uuid, frame)

    -- The overloads of `send`, with JSON data or others and with or without a choice of the
    -- destination report.
    unfoldable pub send_json :
        Host
        → Bool
        → Stamp
        → List String
        → String
        → ℕ
        → Bool
        → Json
        → List Json
        → Base.Connector V
        → Result Thrown (String × Frame)
    unfolding send_message
    send_json h ec stamp targets message_type timeout destination_report data_json =
        send_message h ec stamp targets message_type timeout destination_report
          (to_string data_json)

    unfoldable pub send_json_unreported :
        Host
        → Bool
        → Stamp
        → List String
        → String
        → ℕ
        → Json
        → List Json
        → Base.Connector V
        → Result Thrown (String × Frame)
    unfolding send_json
    send_json_unreported h ec stamp targets message_type timeout data_json =
        send_json h ec stamp targets message_type timeout false data_json

    unfoldable send_binary_data :
        Host
        → Bool
        → Stamp
        → List String
        → String
        → ℕ
        → Bool
        → Bytes
        → List Json
        → Base.Connector V
        → Result Thrown (String × Frame)
    unfolding send_message
    send_binary_data h ec stamp targets message_type timeout destination_report data_binary =
        send_message h ec stamp targets message_type timeout destination_report data_binary

    unfoldable send_binary_data_unreported :
        Host
        → Bool
        → Stamp
        → List String
        → String
        → ℕ
        → Bytes
        → List Json
        → Base.Connector V
        → Result Thrown (String × Frame)
    unfolding send_message
    send_binary_data_unreported h ec stamp targets message_type timeout data_binary =
        send_message h ec stamp targets message_type timeout false data_binary

    unfoldable pub send_error :
        Host
        → Bool
        → Stamp
        → List String
        → ℕ
        → String
        → String
        → Base.Connector V
        → Result Thrown (String × Frame)
    unfolding send_json_unreported
    send_error h ec stamp targets timeout id description =
        send_json_unreported h ec stamp targets error_msg_type timeout
          (set_all V J W empty
            (("id", string_value id) ∷ ("description", string_value description) ∷ []))
          []
