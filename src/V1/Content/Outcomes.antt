-- ===== src/V1/Content/Outcomes.antt =====
-- `getParsedChunks` as a whole: what it returns, and a failure that it does not report but throws.
use Prim.Native.String.{String}
use cpp_pcp_client.Base.{
  ℕ, ◌≡◌, refl, ◌∙◌, inl, inr, true, false, List, [], if◌then◌else◌, Bool-cases, ok, err,
  bind-eq-ok, arith,
}
use cpp_pcp_client.Validator.Errors.{schema_not_found_error}
use cpp_pcp_client.Validator.Valijson.{Valijson}
use cpp_pcp_client.Validator.Schema.{ContentType, json, binary}
use cpp_pcp_client.Validator.Registry.{
  Validator, validate, get_schema_content_type, includes_schema,
}
use cpp_pcp_client.Validator.Registry.Laws.{not_found}
use cpp_pcp_client.ParsedChunks.{JsonContainer, ParsedChunks, without_data, with_binary_data}
use cpp_pcp_client.V1.Message.{Message, has_data}
use cpp_pcp_client.V1.Content.{
  envelope_schema_name, parse_json, parse_debug_chunks, parse_data, data_content, get_parsed_chunks,
}
use cpp_pcp_client.V1.Content.Described.{parse_json-some}
use cpp_pcp_client.V1.Content.Reported.{
  IsContentOf, valid_debugs, invalid_debugs, counted-DebugReported, Rest, no_data, binary_data,
  Rest-of, with_data-Rest, parse_debug_chunks-Counted,
}

module _ (V : Valijson) (J : JsonContainer V) where
  open V use {Json}
  open J use {get_string}

  by_content_type :
      (m : Message) (v : Validator V) (envelope : Json) (message_type : String)
      (debugs : List Json × ℕ) (content_type : ContentType) {r : ParsedChunks V}
      → has_data m ≡ true
      → get_string envelope "message_type" ≡ ok message_type
      → get_schema_content_type V v message_type ≡ ok content_type
      → data_content V J v envelope m.data_chunk.content debugs ≡ ok r
      → Rest V J m v envelope debugs r
  unfolding data_content with_binary_data
  by_content_type m v envelope mt debugs json has typed content e =
      with_data-Rest V J m v envelope mt debugs (parse_data V J v mt m.data_chunk.content) has typed
        content refl (rw (typed, content) at e)
  by_content_type m v envelope mt debugs binary has typed content e =
      Rest-of V J m v envelope debugs
        (record {
          same_envelope = refl;
          same_debug = refl;
          same_invalid = refl;
          reported = binary_data mt has typed content refl refl refl refl;
        })
        (rw (typed, content) at e)

  data_content-Rest :
      (m : Message) (v : Validator V) (envelope : Json) (debugs : List Json × ℕ)
      {r : ParsedChunks V}
      → has_data m ≡ true
      → data_content V J v envelope m.data_chunk.content debugs ≡ ok r
      → Rest V J m v envelope debugs r
  unfolding data_content
  data_content-Rest m v envelope debugs has e =
      let (mt, typed, e1) = bind-eq-ok (get_string envelope "message_type") _ e in
      let (ct, content, e2) = bind-eq-ok (get_schema_content_type V v mt) _ e1 in
      by_content_type m v envelope mt debugs ct has typed content e

  content-Rest :
      (m : Message) (v : Validator V) (envelope : Json) (debugs : List Json × ℕ)
      {r : ParsedChunks V}
      → (if has_data m
          then data_content V J v envelope m.data_chunk.content debugs
          else ok (without_data V J envelope debugs.0 debugs.1))
        ≡ ok r
      → Rest V J m v envelope debugs r
  unfolding without_data
  content-Rest m v envelope debugs e = elim (Bool-cases (has_data m)) [
    | inl has ↦ data_content-Rest m v envelope debugs has (rw has at e)
    | inr none ↦
        Rest-of V J m v envelope debugs
          (record {
            same_envelope = refl;
            same_debug = refl;
            same_invalid = refl;
            reported = no_data none refl refl;
          })
          (rw none at e)
  ]

  -- Chunks that `get_parsed_chunks` returns hold the envelope, parsed and valid for the envelope
  -- schema; the debug contents that parse, are valid for the debug schema and whose hops are all
  -- valid for theirs, in order, and the number of the others modulo 2 ^ 32; and the data as its
  -- flags say: none, JSON that is valid for the schema of the message type, no JSON that is, or the
  -- bytes of a binary type.
  pub get_parsed_chunks-IsContentOf :
      (m : Message) (v : Validator V) (r : ParsedChunks V)
      → get_parsed_chunks V J m v ≡ ok r
      → IsContentOf V J m v r
  unfolding get_parsed_chunks
  get_parsed_chunks-IsContentOf m v r e =
      let (envelope, parsed, e1) = bind-eq-ok (parse_json V J m.envelope_chunk.content) _ e in
      let (_, valid, e2) = bind-eq-ok (validate V v envelope envelope_schema_name) _ e1 in
      let (id, _, e3) = bind-eq-ok (get_string envelope "id") _ e2 in
      let (debugs, read, e4) = bind-eq-ok (parse_debug_chunks V J v m.debug_chunks ([], 0)) _ e3 in
      let k = parse_debug_chunks-Counted V J v m.debug_chunks [] 0 (omega arith) read in
      let c = content-Rest m v envelope debugs e4 in
      let listed : r.debug ≡ valid_debugs V J v m.debug_chunks = c.same_debug ∙ k.all_valid in
      record {
        envelope_parsed =
            rw c.same_envelope (parse_json-some V J m.envelope_chunk.content envelope parsed);
        envelope_valid = rw c.same_envelope valid;
        invalid = invalid_debugs V J v m.debug_chunks;
        debug_reported = rw listed (counted-DebugReported V J v m.debug_chunks);
        debug_counted = c.same_invalid ∙ k.all_invalid ∙ omega arith;
        data_reported = c.reported;
      }

  -- A message with data whose type is not registered is not reported as one with invalid data: with
  -- a valid envelope and debug chunks that are read, `get_parsed_chunks` throws
  -- schema_not_found_error.
  pub unknown_type_thrown :
      (m : Message) (v : Validator V) (envelope : Json) (id message_type : String)
      (debugs : List Json × ℕ)
      → parse_json V J m.envelope_chunk.content ≡ ok envelope
      → validate V v envelope envelope_schema_name ≡ ok tt
      → get_string envelope "id" ≡ ok id
      → get_string envelope "message_type" ≡ ok message_type
      → parse_debug_chunks V J v m.debug_chunks ([], 0) ≡ ok debugs
      → has_data m ≡ true
      → includes_schema V v message_type ≡ false
      → get_parsed_chunks V J m v ≡ err (schema_not_found_error message_type)
  unfolding get_parsed_chunks data_content
  unknown_type_thrown m v envelope id mt debugs parsed valid has_id typed read has unknown =
      rw (parsed, valid, has_id, read, has, typed, (not_found V v mt envelope unknown).1)
