-- ===== src/V1/Connector/Connect/Tests.antt =====
-- An association that succeeds: the connection opens, the request is sent and the response arrives.
use cpp_pcp_client.Base.{◌≡◌, ◌≢◌, ◌⊎◌, refl, true, false, [], ◌∷◌, none}
use cpp_pcp_client.Validator.Documents.{Doc, documents, word, flag, empty_object, with_member}
use cpp_pcp_client.Validator.Schema.{get_raw}
use cpp_pcp_client.Validator.Registry.{validate, find, get_schema_content_type}
use cpp_pcp_client.Documents.{objects, envelope_only}
use cpp_pcp_client.ParsedChunks.{JsonContainer, with_json_data}
use cpp_pcp_client.JsonWriter.Objects.{container_of, writer}
use cpp_pcp_client.Connector.Durations.{pos}
use cpp_pcp_client.Connector.Connection.{
  make_connection, open_event, handle_all, connect_once, get_ws_uri, handle,
}
use cpp_pcp_client.Connector.Connection.Connect.{
  Round, looped, pass, attempted, connect_and_wait, waited,
}
use cpp_pcp_client.Connector.Connection.Connect
use cpp_pcp_client.Connector.Base.{Callback, Connected, over, initialized_connection}
use cpp_pcp_client.V1.Serialization.{
  Bytes, deserialize_u8, deserialize_u32, deserialize_string, copy_from, add_size, sub_size,
  get_host_number, number_in,
}
use cpp_pcp_client.V1.Chunks.{type_bits}
use cpp_pcp_client.V1.Message.{validate_version, has_data}
use cpp_pcp_client.V1.Parser.{parse_message, parse_envelope, parse_chunks, parse_chunk}
use cpp_pcp_client.V1.Content.{get_parsed_chunks, parse_debug_chunks, data_content, parse_data}
use cpp_pcp_client.V1.Association.{conclude, associate_response_callback, begin}
use cpp_pcp_client.V1.Schemas.{associate_resp_type}
use cpp_pcp_client.V1.Connector.{Connector}
use cpp_pcp_client.V1.Connector.Samples.{connector, pc, stamp, texts}
use cpp_pcp_client.V1.Connector.Connect.{
  World, opens, receives, connect, handle_sessions, handle_session,
}
use cpp_pcp_client.V1.Connector.Dispatch.{process_message}
use cpp_pcp_client.V1.Connector.Connect.Associates.{Accepts}
use cpp_pcp_client.V1.Connector.Connect.Outcome.{connect-associates}

-- The response, which is envelope and data in one.
abbrev welcome : Doc
welcome = with_member "id" (word "12") (
    with_member "message_type" (word associate_resp_type) (
      with_member "sender" (word "pcp:///server") (with_member "success" (flag true) empty_object)))

abbrev container : JsonContainer documents
container = container_of welcome

abbrev response_bytes : Bytes
response_bytes = 1 ∷ 1 ∷ 0 ∷ 0 ∷ 0 ∷ 1 ∷ 1 ∷ 2 ∷ 0 ∷ 0 ∷ 0 ∷ 1 ∷ 1 ∷ []

abbrev associating : Connector documents
associating = record connector {
  base = record connector.base {
    connection = none;
    validator = (associate_resp_type, objects associate_resp_type) ∷ envelope_only;
    schema_callback_pairs = (associate_resp_type, Callback.associate_response_callback) ∷ [];
  };
}

abbrev opening : Round
opening = record {
  before = [];
  asleep = [];
  waiting = open_event 7 none 8 false ∷ [];
  now = 6;
  fails = none;
  sleep_jitter = pos 0;
  backoff_jitter = pos 0;
}

abbrev world : World
world = record {
  closing_at = 0;
  closing_fails = false;
  closing_events = [];
  init_fails = false;
  losses = [];
  rounds = opening ∷ [];
  waiting_events = opens 9 stamp false ∷ receives response_bytes ∷ [];
  ended_at = 10;
}

abbrev run : Connector documents × Connected
run = connect documents container writer texts (λ n p. false) pc (pos 1) world associating

associated : run ≡ (run.0, over none)
unfolding connect initialized_connection Connect.connect looped pass handle_all make_connection
    attempted connect_and_wait waited connect_once get_ws_uri handle conclude handle_sessions
    handle_session process_message parse_message parse_envelope parse_chunks parse_chunk
    deserialize_u8 deserialize_u32 deserialize_string copy_from type_bits validate_version add_size
    sub_size get_host_number number_in get_parsed_chunks find validate get_raw parse_debug_chunks
    has_data data_content get_schema_content_type parse_data with_json_data
    associate_response_callback begin
associated = refl

connect-associates_example :
    ((◌≡◌ {A = Connected} (over none) (over none))
      × (run.0.session_association.success ≡ true)
      × (run.0.session_association.in_progress ≡ false)
      × Accepts documents container writer texts
          (λ n p. false)
          pc
          associating.base.validator
          associating.base.schema_callback_pairs
          ""
          world.waiting_events)
    ⊎ ((◌≢◌ {A = Connected} (over none) (over none)) × (run.0.session_association.success ≡ false))
unfolding initialized_connection make_connection
connect-associates_example =
    connect-associates documents container writer texts (λ n p. false) pc (pos 1) world associating
      run.0
      (make_connection associating.base.broker_ws_uris
        associating.base.client_metadata.pong_timeouts_before_retry)
      (over none) refl associated
