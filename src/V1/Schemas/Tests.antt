-- ===== src/V1/Schemas/Tests.antt =====
-- A run of the envelope schema.
use cpp_pcp_client.Base.{◌≡◌, ◌&&◌, ok}
use cpp_pcp_client.Validator.Valijson.{k_object, k_string, k_array, k_boolean}
use cpp_pcp_client.Validator.Schema.{Schema, json, get_raw}
use cpp_pcp_client.Validator.Documents.{documents, documented, has_type, member, check}
use cpp_pcp_client.Documents.{envelope_doc}
use cpp_pcp_client.V1.Schemas.{envelope_schema}
use cpp_pcp_client.V1.Schemas.Meaning.{present, absent_or, envelope_schema_lem}

envelope_schema_lem_example :
    (s : Schema documents) × (envelope_schema documents ≡ ok s)
    × (s.name ≡ "envelope_schema")
    × (s.content_type ≡ json)
    × (check (get_raw documents s) envelope_doc ≡ (
        has_type k_object envelope_doc
        && (present documents documented k_string (member "id" envelope_doc)
            && (present documents documented k_string (member "message_type" envelope_doc)
                && (present documents documented k_string (member "expires" envelope_doc)
                    && (present documents documented k_array (member "targets" envelope_doc)
                        && (present documents documented k_string (member "sender" envelope_doc)
                            && (absent_or documents documented k_boolean
                                  (member "destination_report" envelope_doc)
                                && absent_or documents documented k_string
                                    (member "in-reply-to" envelope_doc)))))))))
envelope_schema_lem_example = envelope_schema_lem documents documented envelope_doc
