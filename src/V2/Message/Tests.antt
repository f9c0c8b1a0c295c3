-- ===== src/V2/Message/Tests.antt =====
-- A run of `getParsedChunks` on a document.
use cpp_pcp_client.Base.{◌≡◌, refl, ok}
use cpp_pcp_client.Validator.Schema.{get_raw}
use cpp_pcp_client.Validator.Registry.{validate, validate_json_container, find}
use cpp_pcp_client.Validator.Documents.{documents, null_doc}
use cpp_pcp_client.Documents.{container, full_envelope_doc, envelope_only}
use cpp_pcp_client.V2.Message.{Message, get_parsed_chunks}
use cpp_pcp_client.V2.Message.Reported.{reported, get_parsed_chunks_data}

abbrev sent : Message documents container
sent = record { envelope = full_envelope_doc }

sent-valid : validate documents envelope_only full_envelope_doc "envelope_schema" ≡ ok tt
unfolding validate find get_raw validate_json_container
sent-valid = refl

get_parsed_chunks_data_example :
    get_parsed_chunks documents container sent envelope_only
    ≡ ok (
        reported documents container full_envelope_doc null_doc
          (validate documents envelope_only null_doc "greeting"))
get_parsed_chunks_data_example =
    get_parsed_chunks_data documents container sent envelope_only "greeting" null_doc sent-valid
      refl refl refl
