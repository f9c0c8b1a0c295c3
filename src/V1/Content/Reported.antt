-- ===== src/V1/Content/Reported.antt =====
-- Which contents `getParsedChunks` returns, and which failures it reports in them.
use mathlib.Core.Path.{subst}
use Prim.Native.String.{String}
use cpp_pcp_client.Base.{
  ℕ, suc, ◌<◌, append-nil, append_assoc, ◌+◌, ◌%◌, ◌^◌, ◌≡◌, refl, ◌∙◌, inl, inr, true, false, List,
  [], ◌∷◌, ◌++◌, Bool-cases, Result-cases, some, ok, err, ok-injective, arith,
}
use cpp_pcp_client.Validator.Errors.{Error, Outcome}
use cpp_pcp_client.Validator.Valijson.{Valijson}
use cpp_pcp_client.Validator.Schema.{json, binary}
use cpp_pcp_client.Validator.Registry.{Validator, validate, get_schema_content_type}
use cpp_pcp_client.ParsedChunks.{JsonContainer, ParsedChunks, with_invalid_data, with_json_data}
use cpp_pcp_client.V1.Chunks.{MessageChunk}
use cpp_pcp_client.V1.Message.{Message, has_data}
use cpp_pcp_client.V1.Content.Described.{
  IsValidData, DebugReported, no_debug, valid_debug, invalid_debug, parse_debug-IsValidDebug,
  no_debug-IsValidDebug, parse_data-IsValidData, no_data-IsValidData,
}
use cpp_pcp_client.V1.Content.{
  envelope_schema_name, is_caught, parse_debug, count_debug, parse_debug_chunks, parse_data,
  with_data,
}

module _ (V : Valijson) (J : JsonContainer V) where
  open V use {Json}
  open J use {parse, get_string}

  -- The contents of the debug chunks whose try block throws nothing, in order.
  pub valid_debugs : Validator V → List MessageChunk → List Json
  valid_debugs v [] = []
  valid_debugs v (c ∷ cs) = elim (parse_debug V J v c) [
    | ok d ↦ d ∷ valid_debugs v cs
    | err e ↦ valid_debugs v cs
  ]

  -- How many debug chunks throw.
  pub invalid_debugs : Validator V → List MessageChunk → ℕ
  invalid_debugs v [] = 0
  invalid_debugs v (c ∷ cs) = elim (parse_debug V J v c) [
    | ok d ↦ invalid_debugs v cs
    | err e ↦ suc (invalid_debugs v cs)
  ]

  -- From what was counted so far, the chunks lead to this count.
  pub record Counted (v : Validator V) (cs : List MessageChunk) (valid : List Json) (invalid : ℕ)
      (r : List Json × ℕ) : Type 0 where
    pub all_valid : r.0 ≡ valid ++ valid_debugs v cs
    pub all_invalid : r.1 ≡ (invalid + invalid_debugs v cs) % 2 ^ 32

  bad_chunk :
      (v : Validator V) (c : MessageChunk) (cs : List MessageChunk) (valid : List Json)
      (invalid : ℕ) (why : Error) {r : List Json × ℕ}
      → parse_debug V J v c ≡ err why
      → (parse_debug_chunks V J v cs (valid, (invalid + 1) % 2 ^ 32) ≡ ok r
          → Counted v cs valid ((invalid + 1) % 2 ^ 32) r)
      → parse_debug_chunks V J v (c ∷ cs) (valid, invalid) ≡ ok r
      → Counted v (c ∷ cs) valid invalid r
  unfolding parse_debug_chunks valid_debugs invalid_debugs
  bad_chunk v c cs valid invalid why {r} bad rest e = elim (Bool-cases (is_caught why)) [
    | inl caught ↦
        let k = rest (rw (bad, count_debug, caught) at e) in
        record {
          all_valid = rw (bad, valid_debugs) k.all_valid;
          all_invalid = rw (bad, invalid_debugs) (k.all_invalid ∙ omega arith);
        }
    | inr thrown ↦ cc (rw (bad, count_debug, thrown) at e)
  ]

  pub parse_debug_chunks-Counted :
      (v : Validator V) (cs : List MessageChunk) (valid : List Json) (invalid : ℕ)
      {r : List Json × ℕ}
      → invalid < 2 ^ 32
      → parse_debug_chunks V J v cs (valid, invalid) ≡ ok r
      → Counted v cs valid invalid r
  unfolding parse_debug_chunks valid_debugs invalid_debugs
  parse_debug_chunks-Counted v [] valid invalid small e = record {
    all_valid = ground (arith, append-nil valid);
    all_invalid = ground arith;
  }
  parse_debug_chunks-Counted v (c ∷ cs) valid invalid {r} small e =
      elim (Result-cases (parse_debug V J v c)) [
        | inl (d, good) ↦
            let next : parse_debug_chunks V J v cs (valid ++ d ∷ [], invalid) ≡ ok r =
              rw (good, count_debug) at e in
            let k = parse_debug_chunks-Counted v cs (valid ++ d ∷ []) invalid small next in
            record {
              all_valid =
                  rw (good, valid_debugs)
                    (k.all_valid ∙ append_assoc valid (d ∷ []) (valid_debugs v cs));
              all_invalid = rw (good, invalid_debugs) k.all_invalid;
            }
        | inr (why, bad) ↦
            bad_chunk v c cs valid invalid why bad
              (λ next.
                parse_debug_chunks-Counted v cs valid ((invalid + 1) % 2 ^ 32) (omega arith) next)
              e
      ]

  pub counted-DebugReported :
      (v : Validator V) (cs : List MessageChunk)
      → DebugReported V J v cs (valid_debugs v cs) (invalid_debugs v cs)
  unfolding valid_debugs invalid_debugs
  counted-DebugReported v [] = no_debug
  counted-DebugReported v (c ∷ cs) = elim (Result-cases (parse_debug V J v c)) [
    | inl (d, good) ↦
        rw (good, valid_debugs, invalid_debugs)
          (valid_debug (parse_debug-IsValidDebug V J v c d good) (counted-DebugReported v cs))
    | inr (why, bad) ↦
        rw (bad, valid_debugs, invalid_debugs)
          (invalid_debug (no_debug-IsValidDebug V J v c why bad) (counted-DebugReported v cs))
  ]

  -- How the data chunk of a message is reported.
  pub data DataReported (m : Message) (v : Validator V) (r : ParsedChunks V) : Type 0 where
    no_data : has_data m ≡ false → r.has_data ≡ false → r.invalid_data ≡ false → DataReported m v r
    json_data :
        (message_type : String)
        → has_data m ≡ true
        → get_string r.envelope "message_type" ≡ ok message_type
        → get_schema_content_type V v message_type ≡ ok json
        → IsValidData V J v message_type m.data_chunk.content r.data_json
        → r.has_data ≡ true
        → r.invalid_data ≡ false
        → r.data_type ≡ json
        → DataReported m v r
    bad_json_data :
        (message_type : String)
        → has_data m ≡ true
        → get_string r.envelope "message_type" ≡ ok message_type
        → get_schema_content_type V v message_type ≡ ok json
        → ((d : Json) → ¬ IsValidData V J v message_type m.data_chunk.content d)
        → r.has_data ≡ true
        → r.invalid_data ≡ true
        → DataReported m v r
    binary_data :
        (message_type : String)
        → has_data m ≡ true
        → get_string r.envelope "message_type" ≡ ok message_type
        → get_schema_content_type V v message_type ≡ ok binary
        → r.binary_data ≡ m.data_chunk.content
        → r.has_data ≡ true
        → r.invalid_data ≡ false
        → r.data_type ≡ binary
        → DataReported m v r

  pub record IsContentOf (m : Message) (v : Validator V) (r : ParsedChunks V) : Type 0 where
    pub envelope_parsed : parse m.envelope_chunk.content ≡ some r.envelope
    pub envelope_valid : validate V v r.envelope envelope_schema_name ≡ ok tt
    pub invalid : ℕ
    pub debug_reported : DebugReported V J v m.debug_chunks r.debug invalid
    pub debug_counted : r.num_invalid_debug ≡ invalid % 2 ^ 32
    pub data_reported : DataReported m v r

  -- The content part of what `data_content` returns.
  pub record Rest (m : Message) (v : Validator V) (envelope : Json) (debugs : List Json × ℕ)
      (r : ParsedChunks V) : Type 0 where
    pub same_envelope : r.envelope ≡ envelope
    pub same_debug : r.debug ≡ debugs.0
    pub same_invalid : r.num_invalid_debug ≡ debugs.1
    pub reported : DataReported m v r

  pub Rest-of :
      (m : Message) (v : Validator V) (envelope : Json) (debugs : List Json × ℕ)
      {q r : ParsedChunks V}
      → Rest m v envelope debugs q
      → ◌≡◌ {A = Outcome (ParsedChunks V)} (ok q) (ok r)
      → Rest m v envelope debugs r
  Rest-of m v envelope debugs k e = subst (Rest m v envelope debugs) (ok-injective e) k

  pub with_data-Rest :
      (m : Message) (v : Validator V) (envelope : Json) (message_type : String)
      (debugs : List Json × ℕ) (o : Outcome Json) {r : ParsedChunks V}
      → has_data m ≡ true
      → get_string envelope "message_type" ≡ ok message_type
      → get_schema_content_type V v message_type ≡ ok json
      → parse_data V J v message_type m.data_chunk.content ≡ o
      → with_data V J envelope o debugs ≡ ok r
      → Rest m v envelope debugs r
  unfolding with_data with_json_data with_invalid_data
  with_data-Rest m v envelope mt (valid, invalid) (ok d) has typed content parsed e =
      Rest-of m v envelope (valid, invalid)
        (record {
          same_envelope = refl;
          same_debug = refl;
          same_invalid = refl;
          reported =
              json_data mt has typed content
                (parse_data-IsValidData V J v mt m.data_chunk.content d parsed) refl refl refl;
        })
        e
  with_data-Rest m v envelope mt (valid, invalid) (err why) has typed content parsed e =
      elim (Bool-cases (is_caught why)) [
        | inl caught ↦
            Rest-of m v envelope (valid, invalid)
              (record {
                same_envelope = refl;
                same_debug = refl;
                same_invalid = refl;
                reported =
                    bad_json_data mt has typed content
                      (no_data-IsValidData V J v mt m.data_chunk.content why parsed) refl refl;
              })
              (rw caught at e)
        | inr thrown ↦ cc (rw thrown at e)
      ]
