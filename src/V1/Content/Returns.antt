-- ===== src/V1/Content/Returns.antt =====
-- When `getParsedChunks` returns.
use Prim.Native.String.{String}
use cpp_pcp_client.Base.{
  ℕ, ◌≡◌, ◌⊎◌, inl, inr, refl, true, false, List, [], ◌∷◌, All, some, if◌then◌else◌, Option-cases,
  Bool-cases, Result-cases, ok, err, err-injective,
}
use cpp_pcp_client.Validator.Errors.{Error, Outcome, schema_not_found_error, validation_error}
use cpp_pcp_client.Validator.Valijson.{Valijson}
use cpp_pcp_client.Validator.Schema.{ContentType, json, binary}
use cpp_pcp_client.Validator.Registry.{Validator, validate, get_schema_content_type}
use cpp_pcp_client.Validator.Registry.Laws.{validate_outcomes}
use cpp_pcp_client.ParsedChunks.{JsonContainer, ParsedChunks, without_data}
use cpp_pcp_client.V1.Serialization.{Bytes}
use cpp_pcp_client.V1.Chunks.{MessageChunk}
use cpp_pcp_client.V1.Message.{Message, has_data}
use cpp_pcp_client.V1.Content.{
  envelope_schema_name, debug_schema_name, debug_item_schema_name, validate_hops, is_caught,
  parse_json, parse_debug, count_debug, parse_debug_chunks, parse_data, with_data, data_content,
  get_parsed_chunks,
}
use cpp_pcp_client.V1.Content.Reported.{IsContentOf}
use cpp_pcp_client.V1.Content.Outcomes.{get_parsed_chunks-IsContentOf}

module _ (V : Valijson) (J : JsonContainer V) where
  open V use {Json}
  open J use {parse, get_string, get_documents}

  -- The try block of a debug chunk throws nothing, or what its handlers catch.
  abbrev pub IsHandled : Outcome Json → Type 0
  IsHandled (ok d) = Unit
  IsHandled (err e) = is_caught e ≡ true

  count_debug-returns :
      (o : Outcome Json) (so_far : List Json × ℕ)
      → IsHandled o
      → (r : List Json × ℕ) × (count_debug V J o so_far ≡ ok r)
  unfolding count_debug
  count_debug-returns (ok d) (valid, invalid) h = (_, refl)
  count_debug-returns (err e) (valid, invalid) h = rw h (_, refl)

  parse_debug_chunks-returns :
      (v : Validator V) (cs : List MessageChunk) (so_far : List Json × ℕ)
      → All (λ c. IsHandled (parse_debug V J v c)) cs
      → (r : List Json × ℕ) × (parse_debug_chunks V J v cs so_far ≡ ok r)
  unfolding parse_debug_chunks
  parse_debug_chunks-returns v [] so_far h = (so_far, refl)
  parse_debug_chunks-returns v (c ∷ cs) so_far h =
      let (next, counted) = count_debug-returns (parse_debug V J v c) so_far h.0 in
      let (r, done) = parse_debug_chunks-returns v cs next h.1 in (r, rw counted done)

  parse_json-caught :
      (content : Bytes) (e : Error) → parse_json V J content ≡ err e → is_caught e ≡ true
  parse_json-caught content e bad = elim (Option-cases (parse content)) [
    | inl no_json ↦ let same = err-injective (rw (parse_json, no_json) at bad) in rw (← same) refl
    | inr (document, parsed) ↦ cc (rw (parse_json, parsed) at bad)
  ]

  validate-caught :
      (v : Validator V) (name : String) (d : Json)
      → (validate V v d name ≡ ok tt)
        ⊎ ((e : Error) × (validate V v d name ≡ err e) × (is_caught e ≡ true))
  validate-caught v name d = elim (validate_outcomes V v name d) [
    | inl good ↦ inl good
    | inr (inl unknown) ↦ inr (schema_not_found_error name, unknown, refl)
    | inr (inr bad) ↦ inr (validation_error name, bad, refl)
  ]

  hops-caught :
      (v : Validator V) (hops : List Json)
      → (validate_hops V J v hops ≡ ok tt)
        ⊎ ((e : Error) × (validate_hops V J v hops ≡ err e) × (is_caught e ≡ true))
  unfolding validate_hops
  hops-caught v [] = inl refl
  hops-caught v (hop ∷ hops) = elim (validate-caught v debug_item_schema_name hop) [
    | inl good ↦ rw good (hops-caught v hops)
    | inr (e, bad, caught) ↦ inr (e, rw bad refl, caught)
  ]

  -- Nothing that the try block of a debug chunk throws escapes, if valid debugs have hops.
  parse_debug-IsHandled :
      (v : Validator V) (c : MessageChunk)
      → ((d : Json)
          → validate V v d debug_schema_name ≡ ok tt
          → (hops : List Json) × (get_documents d "hops" ≡ ok hops))
      → IsHandled (parse_debug V J v c)
  unfolding parse_debug
  parse_debug-IsHandled v c hops_read = elim (Result-cases (parse_json V J c.content)) [
    | inr (e, no_json) ↦ rw (parse_debug, no_json) (parse_json-caught c.content e no_json)
    | inl (d, parsed) ↦ elim (validate-caught v debug_schema_name d) [
      | inr (e, bad, caught) ↦ rw (parse_debug, parsed, bad) caught
      | inl good ↦
          let (hops, read) = hops_read d good in
          elim (hops-caught v hops) [
            | inl all ↦ rw (parse_debug, parsed, good, read, all) tt
            | inr (e, bad, caught) ↦ rw (parse_debug, parsed, good, read, bad) caught
          ]
    ]
  ]

  All-IsHandled :
      (v : Validator V) (cs : List MessageChunk)
      → ((d : Json)
          → validate V v d debug_schema_name ≡ ok tt
          → (hops : List Json) × (get_documents d "hops" ≡ ok hops))
      → All (λ c. IsHandled (parse_debug V J v c)) cs
  All-IsHandled v [] hops_read = tt
  All-IsHandled v (c ∷ cs) hops_read =
      (parse_debug-IsHandled v c hops_read, All-IsHandled v cs hops_read)

  -- What JSON data fails with is always caught.
  parse_data-cases :
      (v : Validator V) (message_type : String) (content : Bytes)
      → ((d : Json) × (parse_data V J v message_type content ≡ ok d))
        ⊎ ((e : Error) × (parse_data V J v message_type content ≡ err e) × (is_caught e ≡ true))
  unfolding parse_data
  parse_data-cases v mt content = elim (Result-cases (parse_json V J content)) [
    | inr (e, no_json) ↦ inr (e, rw no_json, parse_json-caught content e no_json)
    | inl (document, parsed) ↦ elim (validate_outcomes V v mt document) [
      | inl good ↦ inl (document, rw (parsed, good))
      | inr (inl unknown) ↦ inr (schema_not_found_error mt, rw (parsed, unknown), refl)
      | inr (inr bad) ↦ inr (validation_error mt, rw (parsed, bad), refl)
    ]
  ]

  parse_data-IsHandled :
      (v : Validator V) (message_type : String) (content : Bytes)
      → IsHandled (parse_data V J v message_type content)
  parse_data-IsHandled v mt content = elim (parse_data-cases v mt content) [
    | inl (d, good) ↦ rw good tt
    | inr (e, bad, caught) ↦ rw bad caught
  ]

  with_data-returns :
      (envelope : Json) (o : Outcome Json) (debugs : List Json × ℕ)
      → IsHandled o
      → (r : ParsedChunks V) × (with_data V J envelope o debugs ≡ ok r)
  unfolding with_data
  with_data-returns envelope (ok d) (valid, invalid) h = (_, refl)
  with_data-returns envelope (err e) (valid, invalid) h = rw h (_, refl)

  data_content-returns :
      (v : Validator V) (envelope : Json) (content : Bytes) (debugs : List Json × ℕ)
      (message_type : String) (content_type : ContentType)
      → get_string envelope "message_type" ≡ ok message_type
      → get_schema_content_type V v message_type ≡ ok content_type
      → (r : ParsedChunks V) × (data_content V J v envelope content debugs ≡ ok r)
  unfolding data_content
  data_content-returns v envelope content debugs mt json typed known =
      let (r, done) =
        with_data-returns envelope (parse_data V J v mt content) debugs
          (parse_data-IsHandled v mt content) in
      (r, rw (typed, known) done)
  data_content-returns v envelope content debugs mt binary typed known = rw (typed, known) (_, refl)

  -- The type of a message is that of a registered schema.
  abbrev pub IsRegistered : Validator V → Json → Type 0
  IsRegistered v envelope =
      (message_type : String) × (content_type : ContentType) × (get_string envelope "message_type"
        ≡ ok message_type)
      × (get_schema_content_type V v message_type ≡ ok content_type)

  rest-returns :
      (m : Message) (v : Validator V) (envelope : Json) (debugs : List Json × ℕ)
      → (has_data m ≡ false) ⊎ IsRegistered v envelope
      → (r : ParsedChunks V) × ((if has_data m
            then data_content V J v envelope m.data_chunk.content debugs
            else ok (without_data V J envelope debugs.0 debugs.1))
          ≡ ok r)
  rest-returns m v envelope debugs data_ok = elim (Bool-cases (has_data m)) [
    | inr no_data ↦ rw no_data (_, refl)
    | inl has ↦ elim data_ok [
      | inl no_data ↦ rw no_data (_, refl)
      | inr (mt, ct, typed, known) ↦
          rw has (data_content-returns v envelope m.data_chunk.content debugs mt ct typed known)
    ]
  ]

  -- For a valid envelope with an id, and either no data or a message type that is registered,
  -- `get_parsed_chunks` returns the content of the message, however its debug chunks and its data
  -- turn out, if the debug schema of the validator is one under which the hops can be read.
  pub get_parsed_chunks-returns :
      (m : Message) (v : Validator V) (envelope : Json) (id : String)
      → parse m.envelope_chunk.content ≡ some envelope
      → validate V v envelope envelope_schema_name ≡ ok tt
      → get_string envelope "id" ≡ ok id
      → ((d : Json)
          → validate V v d debug_schema_name ≡ ok tt
          → (hops : List Json) × (get_documents d "hops" ≡ ok hops))
      → (has_data m ≡ false) ⊎ IsRegistered v envelope
      → (r : ParsedChunks V) × (get_parsed_chunks V J m v ≡ ok r) × IsContentOf V J m v r
  unfolding get_parsed_chunks
  get_parsed_chunks-returns m v envelope id parsed_envelope valid has_id hops_read data_ok =
      let parsed : parse_json V J m.envelope_chunk.content ≡ ok envelope =
        rw (parse_json, parsed_envelope) refl in
      let (debugs, read) =
        parse_debug_chunks-returns v m.debug_chunks ([], 0)
          (All-IsHandled v m.debug_chunks hops_read) in
      let (r, rest) = rest-returns m v envelope debugs data_ok in
      let done : get_parsed_chunks V J m v ≡ ok r = rw (parsed, valid, has_id, read) rest in
      (r, done, get_parsed_chunks-IsContentOf V J m v r done)
