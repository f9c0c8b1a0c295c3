-- ===== src/V1/Connector/Failure/Tests.antt =====
-- An error about the association request of another connector.
use cpp_pcp_client.Base.{◌≡◌, refl, true, false, [], ◌∷◌, some, none, ok, arith}
use cpp_pcp_client.Validator.Documents.{
  Doc, word, empty_object, with_member, empty_array, with_element, documents,
}
use cpp_pcp_client.Validator.Registry.{
  find, validate, validate_json_container, get_schema_content_type,
}
use cpp_pcp_client.Validator.Schema.{get_raw}
use cpp_pcp_client.Documents.{objects, envelope_only}
use cpp_pcp_client.ParsedChunks.{JsonContainer, with_json_data}
use cpp_pcp_client.JsonWriter.{set_all}
use cpp_pcp_client.JsonWriter.Objects.{container_of, writer, writes, failure}
use cpp_pcp_client.Connector.Connection.Sending.{binary_frame}
use cpp_pcp_client.Connector.Base.{Callback}
use cpp_pcp_client.V1.Schemas.{error_msg_type}
use cpp_pcp_client.V1.Chunks.{make_chunk}
use cpp_pcp_client.V1.Message.Encode.{encode, encode_chunks, optional_chunks}
use cpp_pcp_client.V1.Association.{conclude, association_error}
use cpp_pcp_client.V1.Connector.{Connector, new_session}
use cpp_pcp_client.V1.Connector.Sending.{send_error, envelope_content, envelope_entries}
use cpp_pcp_client.V1.Connector.Samples.{base, connector, pc, board, stamp, texts}
use cpp_pcp_client.V1.Connector.Dispatch.{process_message}
use cpp_pcp_client.V1.Connector.Delivery.{IsExpected}
use cpp_pcp_client.V1.Connector.Delivery.Transmitted.{message_of_texts, AreTransmissible}
use cpp_pcp_client.V1.Connector.Failure.{send_error-fails}

abbrev error_envelope : Doc
error_envelope = with_member "sender" (word "pcp://host/agent") (
    with_member "expires" (word "2016-01-01T00:00:05Z") (
      with_member "targets" (with_element (word "pcp://other/agent") empty_array) (
        with_member "message_type" (word error_msg_type)
          (with_member "id" (word "12") empty_object))))

abbrev container : JsonContainer documents
container = container_of error_envelope

-- A connector that waits for the response to its request 7.
abbrev waiting : Connector documents
waiting = record connector {
  base = record base {
    validator = (error_msg_type, objects error_msg_type) ∷ envelope_only;
    schema_callback_pairs = (error_msg_type, Callback.error_message_callback) ∷ [];
    error_callback = some 6;
  };
  session_association = record new_session { in_progress = true; request_id = "7" };
}

are_small : AreTransmissible pc board (1 ∷ []) (5 ∷ [])
unfolding encode encode_chunks optional_chunks make_chunk
are_small = record {
  sender_is_host = omega arith;
  envelope_fits = omega arith;
  some_data = omega arith;
  data_fits = omega arith;
  sender_fits = omega arith;
  receiver_fits = omega arith;
}

is_expected : IsExpected documents container waiting error_envelope failure error_msg_type
unfolding validate find get_raw validate_json_container get_schema_content_type
is_expected = record { envelope_valid = refl; type_known = refl; document_valid = refl }

send_error-fails_example :
    (send_error documents container writer pc false stamp
        ("pcp://other/agent" ∷ [])
        5
        "7"
        "unknown client"
        base
      ≡ ok ("12", binary_frame (encode (message_of_texts (1 ∷ []) (5 ∷ [])))))
    × (process_message documents container texts
          (λ n p. false)
          board
          (encode (message_of_texts (1 ∷ []) (5 ∷ [])))
          waiting
        ≡ record {
          session = record new_session {
            in_progress = true;
            request_id = "7";
            got_messaging_failure = true;
            error = "unknown client";
          };
          calls = (6, with_json_data documents container error_envelope failure [] 0) ∷ [];
          thrown = none;
        })
    × ((conclude 9
          (record new_session {
            in_progress = true;
            request_id = "7";
            got_messaging_failure = true;
            error = "unknown client";
          })
          waiting.association_timings).1
        ≡ association_error)
unfolding envelope_content envelope_entries set_all find
send_error-fails_example =
    send_error-fails documents container writer (writes error_envelope) texts (λ n p. false) stamp
      ("pcp://other/agent" ∷ []) 5 "7" "unknown client" base pc board waiting 9 refl are_small refl
      refl is_expected refl refl refl refl refl
