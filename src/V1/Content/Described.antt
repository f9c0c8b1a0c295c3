-- ===== src/V1/Content/Described.antt =====
-- Which debug and data chunks are valid, by the documents and the schemas alone.
use Prim.Native.String.{String}
use cpp_pcp_client.Base.{
  ℕ, suc, ◌≡◌, refl, ap, ◌∙◌, List, [], ◌∷◌, All, Option-cases, inl, inr, some, ok, err, bind-eq-ok,
  ok-injective,
}
use cpp_pcp_client.Validator.Errors.{Error}
use cpp_pcp_client.Validator.Valijson.{Valijson}
use cpp_pcp_client.Validator.Registry.{Validator, validate}
use cpp_pcp_client.ParsedChunks.{JsonContainer}
use cpp_pcp_client.V1.Serialization.{Bytes}
use cpp_pcp_client.V1.Chunks.{MessageChunk}
use cpp_pcp_client.V1.Content.{
  debug_schema_name, debug_item_schema_name, parse_json, validate_hops, parse_debug, parse_data,
}

module _ (V : Valijson) (J : JsonContainer V) where
  open V use {Json}
  open J use {parse, get_documents}

  -- The content of a debug chunk is the document, which is valid for the debug schema, and whose
  -- hops are all valid for the schema of hops.
  pub record IsValidDebug (v : Validator V) (c : MessageChunk) (d : Json) : Type 0 where
    pub parsed : parse c.content ≡ some d
    pub valid : validate V v d debug_schema_name ≡ ok tt
    pub hops : List Json
    pub read : get_documents d "hops" ≡ ok hops
    pub hops_valid : All (λ hop. validate V v hop debug_item_schema_name ≡ ok tt) hops

  -- The content of a data chunk is the document, which is valid for the schema of the type.
  pub record IsValidData (v : Validator V) (message_type : String) (content : Bytes) (d : Json)
      : Type 0 where
    pub parsed : parse content ≡ some d
    pub valid : validate V v d message_type ≡ ok tt

  -- The debug chunks, the documents of the valid ones in order, and the number of the others.
  pub data DebugReported (v : Validator V) : List MessageChunk → List Json → ℕ → Type 0 where
    no_debug : DebugReported v [] [] 0
    valid_debug :
        {c : MessageChunk} {d : Json} {cs : List MessageChunk} {ds : List Json} {n : ℕ}
        → IsValidDebug v c d
        → DebugReported v cs ds n
        → DebugReported v (c ∷ cs) (d ∷ ds) n
    invalid_debug :
        {c : MessageChunk} {cs : List MessageChunk} {ds : List Json} {n : ℕ}
        → ((d : Json) → ¬ IsValidDebug v c d)
        → DebugReported v cs ds n
        → DebugReported v (c ∷ cs) ds (suc n)

  pub parse_json-some :
      (content : Bytes) (d : Json) → parse_json V J content ≡ ok d → parse content ≡ some d
  parse_json-some content d e = elim (Option-cases (parse content)) [
    | inl no_json ↦ cc (rw (parse_json, no_json) at e)
    | inr (document, parsed) ↦ parsed ∙ ap some (ok-injective (rw (parse_json, parsed) at e))
  ]

  some-parse_json :
      (content : Bytes) (d : Json) → parse content ≡ some d → parse_json V J content ≡ ok d
  some-parse_json content d parsed = rw (parse_json, parsed) refl

  hops-valid :
      (v : Validator V) (hops : List Json)
      → validate_hops V J v hops ≡ ok tt
      → All (λ hop. validate V v hop debug_item_schema_name ≡ ok tt) hops
  unfolding validate_hops
  hops-valid v [] e = tt
  hops-valid v (hop ∷ hops) e =
      let (_, valid, rest) = bind-eq-ok (validate V v hop debug_item_schema_name) _ e in
      (valid, hops-valid v hops rest)

  valid-hops :
      (v : Validator V) (hops : List Json)
      → All (λ hop. validate V v hop debug_item_schema_name ≡ ok tt) hops
      → validate_hops V J v hops ≡ ok tt
  unfolding validate_hops
  valid-hops v [] h = refl
  valid-hops v (hop ∷ hops) h = rw h.0 (valid-hops v hops h.1)

  pub parse_debug-IsValidDebug :
      (v : Validator V) (c : MessageChunk) (d : Json)
      → parse_debug V J v c ≡ ok d
      → IsValidDebug v c d
  unfolding parse_debug
  parse_debug-IsValidDebug v c d e =
      let (document, parsed, e1) = bind-eq-ok (parse_json V J c.content) _ e in
      let (_, valid, e2) = bind-eq-ok (validate V v document debug_schema_name) _ e1 in
      let (hops, read, e3) = bind-eq-ok (get_documents document "hops") _ e2 in
      let (_, all, e4) = bind-eq-ok (validate_hops V J v hops) _ e3 in
      let same = ok-injective e4 in
      record {
        parsed = parse_json-some c.content d (parsed ∙ ap ok same);
        valid = rw (← same) valid;
        hops = hops;
        read = rw (← same) read;
        hops_valid = hops-valid v hops all;
      }

  IsValidDebug-parse_debug :
      (v : Validator V) (c : MessageChunk) (d : Json)
      → IsValidDebug v c d
      → parse_debug V J v c ≡ ok d
  unfolding parse_debug
  IsValidDebug-parse_debug v c d h =
      rw
        (
          parse_debug,
          some-parse_json c.content d h.parsed,
          h.valid,
          h.read,
          valid-hops v h.hops h.hops_valid,
        )
        refl

  pub no_debug-IsValidDebug :
      (v : Validator V) (c : MessageChunk) (why : Error)
      → parse_debug V J v c ≡ err why
      → (d : Json) → ¬ IsValidDebug v c d
  no_debug-IsValidDebug v c why bad d h = let good = IsValidDebug-parse_debug v c d h in cc

  pub parse_data-IsValidData :
      (v : Validator V) (message_type : String) (content : Bytes) (d : Json)
      → parse_data V J v message_type content ≡ ok d
      → IsValidData v message_type content d
  unfolding parse_data
  parse_data-IsValidData v mt content d e =
      let (document, parsed, e1) = bind-eq-ok (parse_json V J content) _ e in
      let (_, valid, e2) = bind-eq-ok (validate V v document mt) _ e1 in
      let same = ok-injective e2 in
      record { parsed = parse_json-some content d (parsed ∙ ap ok same); valid = rw (← same) valid }

  pub no_data-IsValidData :
      (v : Validator V) (message_type : String) (content : Bytes) (why : Error)
      → parse_data V J v message_type content ≡ err why
      → (d : Json) → ¬ IsValidData v message_type content d
  unfolding parse_data
  no_data-IsValidData v mt content why bad d h =
      cc (rw (parse_data, some-parse_json content d h.parsed, h.valid) at bad)
