-- ===== src/V1/Connector/Tests.antt =====
-- A greeting from one connector to another, and an association.
use cpp_pcp_client.Base.{All, ◌≡◌, refl, true, false, [], ◌∷◌, none, ok, arith}
use cpp_pcp_client.Validator.Documents.{
  Doc, documents, word, empty_object, with_member, empty_array, with_element, get_string,
  documented,
}
use cpp_pcp_client.Validator.Schema.{get_raw}
use cpp_pcp_client.Validator.Registry.{
  validate, validate_json_container, find, get_schema_content_type,
}
use cpp_pcp_client.ParsedChunks.{JsonContainer, with_json_data}
use cpp_pcp_client.JsonWriter.{set_all}
use cpp_pcp_client.JsonWriter.Objects.{container_of, writer, writes}
use cpp_pcp_client.Connector.Connection.Sending.{binary_frame}
use cpp_pcp_client.V1.Chunks.{make_chunk}
use cpp_pcp_client.V1.Message.Encode.{encode, optional_chunks, encode_chunks}
use cpp_pcp_client.V1.Connector.{Connector, new_session, of_metadata}
use cpp_pcp_client.V1.Connector.Sending.{envelope_content, envelope_entries, send_json}
use cpp_pcp_client.V1.Schemas.{
  ttl_expired_type, error_msg_type, associate_resp_type, debug_item_schema_name, debug_schema_name,
  envelope_schema_name,
}
use cpp_pcp_client.V1.Connector.Constructed.{names, protocol_callbacks, of_metadata-registers}
use cpp_pcp_client.V1.Connector.Samples.{agent, base, connector, pc, board, stamp, texts}
use cpp_pcp_client.V1.Connector.Dispatch.{process_message}
use cpp_pcp_client.V1.Serialization.Wire.{IsByte, all_bytes-IsByte}
use cpp_pcp_client.V1.Connector.Dispatch.Contained.{IsContained, process_message-IsContained}
use cpp_pcp_client.V1.Connector.Delivery.{IsExpected, sent_envelope, send_json-delivers}
use cpp_pcp_client.V1.Connector.Delivery.Transmitted.{message_of_texts, AreTransmissible}

-- The envelope of the greeting.
abbrev greeting : Doc
greeting = with_member "sender" (word "pcp://host/agent") (
    with_member "expires" (word "2016-01-01T00:00:05Z") (
      with_member "targets" (with_element (word "pcp:///server") empty_array)
        (with_member "message_type" (word "greeting") (with_member "id" (word "12") empty_object))))

abbrev container : JsonContainer documents
container = container_of greeting

are_small : AreTransmissible pc board (1 ∷ []) (3 ∷ [])
unfolding encode encode_chunks optional_chunks make_chunk
are_small = record {
  sender_is_host = omega arith;
  envelope_fits = omega arith;
  some_data = omega arith;
  data_fits = omega arith;
  sender_fits = omega arith;
  receiver_fits = omega arith;
}

is_expected : IsExpected documents container connector greeting empty_object "greeting"
unfolding validate find get_raw validate_json_container get_schema_content_type
is_expected = record { envelope_valid = refl; type_known = refl; document_valid = refl }

greeting-sent :
    sent_envelope documents container writer
      (writes greeting)
      texts
      (λ n p. false)
      stamp
      ("pcp:///server" ∷ [])
      "greeting"
      5
      false
      empty_object
      base
    ≡ greeting
unfolding envelope_content envelope_entries set_all
greeting-sent = refl

send_json-delivers_example :
    (send_json documents container writer pc false stamp
        ("pcp:///server" ∷ [])
        "greeting"
        5
        false
        empty_object
        []
        base
      ≡ ok ("12", binary_frame (encode (message_of_texts (1 ∷ []) (3 ∷ [])))))
    × (process_message documents container texts
          (λ n p. false)
          board
          (encode (message_of_texts (1 ∷ []) (3 ∷ [])))
          connector
        ≡ record {
          session = new_session;
          calls = (4, with_json_data documents container greeting empty_object [] 0) ∷ [];
          thrown = none;
        })
    × (get_string greeting "id" ≡ ok "12")
    × (get_string greeting "message_type" ≡ ok "greeting")
    × (get_string greeting "sender" ≡ ok "pcp://host/agent")
unfolding envelope_content envelope_entries set_all find
send_json-delivers_example =
    send_json-delivers documents container writer (writes greeting) texts (λ n p. false) stamp
      ("pcp:///server" ∷ []) "greeting" 5 false empty_object base pc board connector 4 refl
      are_small refl refl is_expected refl

greeting-IsByte : All IsByte (encode (message_of_texts (1 ∷ []) (3 ∷ [])))
unfolding encode encode_chunks optional_chunks make_chunk
greeting-IsByte = all_bytes-IsByte (encode (message_of_texts (1 ∷ []) (3 ∷ []))) refl

process_message-IsContained_example :
    IsContained documents container texts
      (λ n p. true)
      (process_message documents container texts
        (λ n p. true)
        board
        (encode (message_of_texts (1 ∷ []) (3 ∷ [])))
        connector)
unfolding encode encode_chunks optional_chunks make_chunk
process_message-IsContained_example =
    process_message-IsContained documents container texts (λ n p. true) board
      (encode (message_of_texts (1 ∷ []) (3 ∷ []))) connector greeting-IsByte (omega arith)

of_metadata-registers_example :
    (c : Connector documents) × (of_metadata documents ("wss://broker/pcp" ∷ []) agent 5 ≡ ok c)
    × (names c.base.validator
        ≡ ttl_expired_type ∷ error_msg_type ∷ associate_resp_type ∷ debug_item_schema_name
          ∷ debug_schema_name ∷ envelope_schema_name ∷ [])
    × (find "greeting" c.base.schema_callback_pairs ≡ find "greeting" protocol_callbacks)
    × (c.base.connection ≡ none)
    × (c.session_association.in_progress ≡ false)
of_metadata-registers_example =
    of_metadata-registers documents documented ("wss://broker/pcp" ∷ []) agent 5 "greeting"
