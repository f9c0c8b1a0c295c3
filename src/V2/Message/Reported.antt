-- ===== src/V2/Message/Reported.antt =====
-- What `getParsedChunks` of a version 2 message returns.
use Prim.Native.String.{String}
use cpp_pcp_client.Base.{◌≡◌, refl, sym, ◌∙◌, inl, inr, true, [], ok, err, err-injective}
use cpp_pcp_client.Validator.Errors.{Error, Outcome}
use cpp_pcp_client.Validator.Valijson.{Valijson}
use cpp_pcp_client.Validator.Registry.{Validator, validate}
use cpp_pcp_client.Validator.Registry.Laws.{validate_outcomes}
use cpp_pcp_client.ParsedChunks.{JsonContainer, ParsedChunks, with_invalid_data, with_json_data}
use cpp_pcp_client.V2.Schemas.{envelope_schema_name}
use cpp_pcp_client.V2.Message.{Message, is_caught, validate_data, after_validate, get_parsed_chunks}

module _ (V : Valijson) (J : JsonContainer V) where
  open V use {Json}
  open J use {includes, get_string, get_document}

  -- A failed validation is one that `validate_data` catches.
  validate_data_failed :
      (v : Validator V) (n : String) (j : Json) (e : Error)
      → validate V v j n ≡ err e
      → is_caught e ≡ true
  validate_data_failed v n j e h = elim (validate_outcomes V v n j) [
    | inl good ↦ cc (sym good ∙ h)
    | inr (inl unknown) ↦ let same = err-injective (sym unknown ∙ h) in rw (← same)
    | inr (inr bad) ↦ let same = err-injective (sym bad ∙ h) in rw (← same)
  ]

  -- What is returned for a document of data, by what `validate` does with it.
  abbrev pub reported : Json → Json → Outcome (Unit {0}) → ParsedChunks V
  reported envelope document (ok _) = with_json_data V J envelope document [] 0
  reported envelope document (err e) = with_invalid_data V J envelope true [] 0

  by_outcome :
      (m : Message V J) (v : Validator V) (message_type : String) (document : Json)
      (o : Outcome (Unit {0}))
      → validate V v m.envelope envelope_schema_name ≡ ok tt
      → includes m.envelope "data" ≡ true
      → get_string m.envelope "message_type" ≡ ok message_type
      → get_document m.envelope "data" ≡ ok document
      → validate V v document message_type ≡ o
      → get_parsed_chunks V J m v ≡ ok (reported m.envelope document o)
  unfolding get_parsed_chunks validate_data
  by_outcome m v mt document (ok tt) valid has typed held good = rw (valid, has, typed, held, good)
  by_outcome m v mt document (err e) valid has typed held bad =
      let caught = validate_data_failed v mt document e bad in
      rw (valid, has, typed, held, bad, after_validate, caught)

  -- For an envelope that is valid and has a message type and some data, the chunks hold the data as
  -- JSON if it validates against the schema of the type, and are flagged as invalid if `validate`
  -- throws, be it that the schema is not registered or that the data does not match it.
  pub get_parsed_chunks_data :
      (m : Message V J) (v : Validator V) (message_type : String) (document : Json)
      → validate V v m.envelope envelope_schema_name ≡ ok tt
      → includes m.envelope "data" ≡ true
      → get_string m.envelope "message_type" ≡ ok message_type
      → get_document m.envelope "data" ≡ ok document
      → get_parsed_chunks V J m v
        ≡ ok (reported m.envelope document (validate V v document message_type))
  get_parsed_chunks_data m v mt document valid has typed held =
      by_outcome m v mt document (validate V v document mt) valid has typed held refl
