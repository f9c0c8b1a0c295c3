-- ===== src/V1/Content/Tests.antt =====
-- Runs of `getParsedChunks` on documents.
use cpp_pcp_client.Base.{
  Bool, List, Result-cases, inl, inr, ◌≡◌, refl, true, false, [], ◌∷◌, ok, err,
}
use cpp_pcp_client.Validator.Errors.{Outcome, schema_not_found_error}
use cpp_pcp_client.Validator.Schema.{get_raw, json}
use cpp_pcp_client.Validator.Registry.{
  Validator, validate, validate_json_container, find, get_schema_content_type, includes_schema,
}
use cpp_pcp_client.Validator.Documents.{Doc, documents, get_documents}
use cpp_pcp_client.Documents.{objects, container, envelope_doc, envelope_only, with_greeting}
use cpp_pcp_client.ParsedChunks.{ParsedChunks, with_json_data}
use cpp_pcp_client.V1.Message.{Message, has_data}
use cpp_pcp_client.V1.Content.{
  debug_schema_name, get_parsed_chunks, parse_debug_chunks, parse_debug, parse_data, data_content,
  with_data, count_debug,
}
use cpp_pcp_client.V1.Content.Reported.{IsContentOf}
use cpp_pcp_client.V1.Content.Returns.{IsRegistered, get_parsed_chunks-returns}
use cpp_pcp_client.V1.Content.Outcomes.{get_parsed_chunks-IsContentOf, unknown_type_thrown}

-- An envelope, a null document for data, and a debug chunk that is no JSON.
abbrev greeting : Message
greeting = record {
  version = 1;
  envelope_chunk = record { descriptor = 1; size = 1; content = 1 ∷ [] };
  data_chunk = record { descriptor = 2; size = 1; content = 1 ∷ [] };
  debug_chunks = record { descriptor = 3; size = 1; content = 9 ∷ [] } ∷ [];
}

abbrev reported : ParsedChunks documents
reported = record {
  envelope = envelope_doc;
  has_data = true;
  invalid_data = false;
  data_type = json;
  data_json = envelope_doc;
  binary_data = [];
  debug = [];
  num_invalid_debug = 1;
}

parsed-greeting : get_parsed_chunks documents container greeting with_greeting ≡ ok reported
unfolding get_parsed_chunks parse_debug_chunks parse_debug parse_data data_content with_json_data
    has_data validate get_schema_content_type find get_raw validate_json_container with_data
    count_debug
parsed-greeting = refl

get_parsed_chunks-IsContentOf_example :
    IsContentOf documents container greeting with_greeting reported
get_parsed_chunks-IsContentOf_example =
    get_parsed_chunks-IsContentOf documents container greeting with_greeting reported
      parsed-greeting

envelope-valid : validate documents envelope_only envelope_doc "envelope_schema" ≡ ok tt
unfolding validate find get_raw validate_json_container
envelope-valid = refl

one_bad_debug :
    parse_debug_chunks documents container envelope_only greeting.debug_chunks ([], 0) ≡ ok ([], 1)
unfolding parse_debug_chunks parse_debug count_debug
one_bad_debug = refl

greeting-data : has_data greeting ≡ true
unfolding has_data
greeting-data = refl

not_registered : includes_schema documents envelope_only "greeting" ≡ false
unfolding includes_schema find
not_registered = refl

unknown_type_thrown_example :
    get_parsed_chunks documents container greeting envelope_only
    ≡ err (schema_not_found_error "greeting")
unknown_type_thrown_example =
    unknown_type_thrown documents container greeting envelope_only envelope_doc "12" "greeting"
      ([], 1) refl envelope-valid refl refl one_bad_debug greeting-data not_registered

-- A debug schema under which the hops can be read.
abbrev holds_hops : Outcome (List Doc) → Bool
holds_hops (ok hops) = true
holds_hops (err e) = false

abbrev with_debug : Validator documents
with_debug =
    (
      debug_schema_name,
      record (objects debug_schema_name) {
        parsed = true;
        parsed_json_schema = λ d. holds_hops (get_documents d "hops");
      },
    )
    ∷ with_greeting

hops_read :
    (d : Doc)
    → validate documents with_debug d debug_schema_name ≡ ok tt
    → (hops : List Doc) × (get_documents d "hops" ≡ ok hops)
unfolding validate find get_raw validate_json_container
hops_read d valid = elim (Result-cases (get_documents d "hops")) [
  | inl read ↦ read
  | inr (e, bad) ↦ cc (rw bad at valid)
]

envelope-valid_both : validate documents with_debug envelope_doc "envelope_schema" ≡ ok tt
unfolding validate find get_raw validate_json_container
envelope-valid_both = refl

greeting-IsRegistered : IsRegistered documents container with_debug envelope_doc
unfolding get_schema_content_type find
greeting-IsRegistered = ("greeting", json, refl, refl)

get_parsed_chunks-returns_example :
    (r : ParsedChunks documents) × (get_parsed_chunks documents container greeting with_debug
      ≡ ok r)
    × IsContentOf documents container greeting with_debug r
get_parsed_chunks-returns_example =
    get_parsed_chunks-returns documents container greeting with_debug envelope_doc "12" refl
      envelope-valid_both refl hops_read (inr greeting-IsRegistered)
