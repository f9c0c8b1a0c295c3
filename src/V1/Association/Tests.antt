-- ===== src/V1/Association/Tests.antt =====
-- An association that succeeds.
use cpp_pcp_client.Base.{◌≡◌, refl, true, false, [], if◌then◌else◌, ok}
use cpp_pcp_client.Validator.Documents.{documents, word, flag, empty_object, with_member}
use cpp_pcp_client.Documents.{container}
use cpp_pcp_client.ParsedChunks.{ParsedChunks}
use cpp_pcp_client.Validator.Schema.{json}
use cpp_pcp_client.Connector.Timings.{AssociationTimings}
use cpp_pcp_client.V1.Association.{
  SessionAssociation, conclude, associated, association_response_failure, assert_data, reason,
  response, process_message,
}
use cpp_pcp_client.V1.Association.Decided.{response-decides}

abbrev requested : SessionAssociation
requested = record {
  success = false;
  in_progress = true;
  got_messaging_failure = false;
  request_id = "7";
  error = "";
}

abbrev timings : AssociationTimings
timings = record {
  start = 5;
  association = 0;
  close_at = 0;
  completed = false;
  success = false;
  closed = false;
}

abbrev welcome : ParsedChunks documents
welcome = record {
  envelope = with_member "id" (word "8") (with_member "sender" (word "pcp:///server") empty_object);
  has_data = true;
  invalid_data = false;
  data_type = json;
  data_json = with_member "id" (word "7") (with_member "success" (flag true) empty_object);
  binary_data = [];
  debug = [];
  num_invalid_debug = 0;
}

welcome-data : assert_data documents container welcome ≡ ok tt
unfolding assert_data
welcome-data = refl

no_reason : reason documents container true welcome.data_json requested ≡ ok ""
unfolding reason
no_reason = refl

response-decides_example :
    (conclude 9 (process_message documents container (response welcome) requested) timings).1
    ≡ (if true then associated else association_response_failure)
response-decides_example =
    response-decides documents container 9 welcome requested timings "8" "pcp:///server" "" true
      refl refl welcome-data refl refl refl refl no_reason
