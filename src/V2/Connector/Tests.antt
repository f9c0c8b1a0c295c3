-- ===== src/V2/Connector/Tests.antt =====
-- A greeting between two connectors of version 2, and an envelope that is not valid.
use cpp_pcp_client.Base.{none, ◌≡◌, refl, false, [], ◌∷◌, some, ok}
use cpp_pcp_client.Validator.Errors.{schema_not_found_error}
use cpp_pcp_client.Validator.Documents.{Doc, documents, word, empty_object, with_member, get_string}
use cpp_pcp_client.Validator.Schema.{get_raw}
use cpp_pcp_client.Validator.Registry.{validate, validate_json_container, find}
use cpp_pcp_client.ParsedChunks.{JsonContainer, with_json_data}
use cpp_pcp_client.JsonWriter.{set_all}
use cpp_pcp_client.JsonWriter.Objects.{container_of, writer, writes}
use cpp_pcp_client.Connector.Connection.Sending.{text_frame}
use cpp_pcp_client.Connector.Base.{Connector, document_error}
use cpp_pcp_client.V1.Connector.Samples.{base}
use cpp_pcp_client.V2.Connector.{envelope_content, envelope_entries, send}
use cpp_pcp_client.V2.Connector.Dispatch.{process_message, nothing_run}
use cpp_pcp_client.V2.Connector.Delivery.{send-delivers, invalid_envelope_thrown}

abbrev greeting : Doc
greeting = with_member "data" empty_object (
    with_member "sender" (word "pcp://host/agent") (
      with_member "target" (word "pcp://other/agent")
        (with_member "message_type" (word "greeting") (with_member "id" (word "12") empty_object))))

abbrev container : JsonContainer documents
container = container_of greeting

send-delivers_example :
    (send documents container writer false "12" "pcp://other/agent" "greeting" empty_object "" base
      ≡ ok ("12", text_frame (1 ∷ [])))
    × (process_message documents container (λ n p. false) (1 ∷ []) base ≡ record {
      calls = (4, with_json_data documents container greeting empty_object [] 0) ∷ [];
      thrown = none;
    })
    × (get_string greeting "id" ≡ ok "12")
    × (get_string greeting "sender" ≡ ok "pcp://host/agent")
unfolding envelope_content envelope_entries set_all validate find get_raw validate_json_container
send-delivers_example =
    send-delivers documents container writer (writes greeting) (λ n p. false) "12"
      "pcp://other/agent" "greeting" empty_object "" base base 4 refl refl refl refl refl

abbrev bare : Connector documents
bare = record base { validator = [] }

invalid_envelope_thrown_example :
    process_message documents container (λ n p. false) (1 ∷ []) bare
    ≡ nothing_run documents (some (document_error (schema_not_found_error "envelope_schema")))
unfolding validate find
invalid_envelope_thrown_example =
    invalid_envelope_thrown documents container (λ n p. false) (1 ∷ []) greeting
      (schema_not_found_error "envelope_schema") bare refl refl
