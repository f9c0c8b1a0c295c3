-- ===== src/V1/Connector/Dispatch/Contained.antt =====
-- What `processMessage` can do at all: which callbacks of the client run, and what it throws.
use Prim.Native.String.{String}
use cpp_pcp_client.Base.{
  ℕ, ◌≡◌, ◌<◌, refl, Bool, true, Bool-cases, ◌⊎◌, inl, inr, [], ◌∷◌, All, length, Option, none,
  some, Option-cases, Result-cases, ok, err,
}
use cpp_pcp_client.Validator.Errors as Documents
use cpp_pcp_client.Validator.Valijson.{Valijson}
use cpp_pcp_client.Validator.Registry.{find}
use cpp_pcp_client.ParsedChunks.{JsonContainer, ParsedChunks}
use cpp_pcp_client.Connector.Base.{document_error, Callback, user}
use cpp_pcp_client.V1.Errors as Messages
use cpp_pcp_client.V1.Serialization.{Bytes, Host, size_mod}
use cpp_pcp_client.V1.Serialization.Wire.{IsByte}
use cpp_pcp_client.V1.Association.{
  SessionAssociation, associate_response_callback, error_message_callback, ttl_message_callback,
}
use cpp_pcp_client.V1.Parser.{parse_message}
use cpp_pcp_client.V1.Parser.Safety.{parse_message-ne-fault}
use cpp_pcp_client.V1.Content.{get_parsed_chunks}
use cpp_pcp_client.V1.Connector.{Connector}
use cpp_pcp_client.V1.Connector.Dispatch.{
  Texts, Handled, is_message_error, is_content_error, hook_first, hook_last, is_answer, raised,
  run_callback, dispatch, header, received, content_read, message_read, process_read,
  process_message,
}

message_error-or-fault :
    (e : Messages.Error)
    → (is_message_error e ≡ true) ⊎ ((f : Messages.Fault) × (e ≡ Messages.fault f))
message_error-or-fault (Messages.message_serialization_error r) = inl refl
message_error-or-fault (Messages.unsupported_version_error v) = inl refl
message_error-or-fault (Messages.invalid_chunk_error r) = inl refl
message_error-or-fault (Messages.fault f) = inr (f, refl)

module _ (V : Valijson) (J : JsonContainer V) (texts : Texts)
    (raises : ℕ → ParsedChunks V → Bool) where
  -- No callback of the client runs, and nothing is thrown but an error of the documents; or one
  -- runs, and what is thrown is what it throws.
  abbrev pub IsContained : Handled V → Type 0
  IsContained o =
      ((o.calls ≡ [])
        × ((o.thrown ≡ none) ⊎ ((e : Documents.Error) × (o.thrown ≡ some (document_error e)))))
      ⊎ ((n : ℕ) × (p : ParsedChunks V) × (o.calls ≡ (n, p) ∷ [])
          × (o.thrown ≡ raised V J texts raises (raises n p)))

  hook_first-IsContained :
      (hook : Option ℕ) (p : ParsedChunks V) (s : SessionAssociation)
      (o : Documents.Outcome SessionAssociation)
      → IsContained (hook_first V J texts raises hook p s o)
  unfolding hook_first
  hook_first-IsContained hook p s (err e) = inl (refl, inr (e, refl))
  hook_first-IsContained none p s (ok t) = inl (refl, inl refl)
  hook_first-IsContained (some n) p s (ok t) = inr (n, p, refl, refl)

  hook_last-IsContained :
      (hook : Option ℕ) (p : ParsedChunks V) (s : SessionAssociation)
      (o : Documents.Outcome SessionAssociation)
      → IsContained (hook_last V J texts raises hook p s o)
  unfolding hook_last
  hook_last-IsContained hook p s (err e) = inl (refl, inr (e, refl))
  hook_last-IsContained none p s (ok t) = elim (Bool-cases (is_answer V J texts raises p s)) [
    | inl answers ↦ rw answers (inl (refl, inl refl))
    | inr discarded ↦ rw discarded (inl (refl, inl refl))
  ]
  hook_last-IsContained (some n) p s (ok t) = elim (Bool-cases (is_answer V J texts raises p s)) [
    | inl answers ↦ rw answers (inr (n, p, refl, refl))
    | inr discarded ↦ rw discarded (inl (refl, inl refl))
  ]

  run_callback-IsContained :
      (callback : Callback) (p : ParsedChunks V) (c : Connector V) (s : SessionAssociation)
      → IsContained (run_callback V J texts raises callback p c s)
  unfolding run_callback
  run_callback-IsContained Callback.associate_response_callback p c s =
      hook_last-IsContained c.associate_response_callback p s (associate_response_callback V J p s)
  run_callback-IsContained Callback.error_message_callback p c s =
      hook_first-IsContained c.base.error_callback p s (error_message_callback V J p s)
  run_callback-IsContained Callback.ttl_message_callback p c s =
      hook_first-IsContained c.ttl_expired_callback p s (ttl_message_callback V J p s)
  run_callback-IsContained (user n) p c s = inr (n, p, refl, refl)

  dispatch-IsContained :
      (message_type : String) (p : ParsedChunks V) (c : Connector V) (s : SessionAssociation)
      → IsContained (dispatch V J texts raises message_type p c s)
  unfolding dispatch
  dispatch-IsContained message_type p c s =
      elim (Option-cases (find message_type c.base.schema_callback_pairs)) [
        | inl missing ↦ rw (dispatch, missing) (inl (refl, inl refl))
        | inr (callback, found) ↦ rw (dispatch, found) (run_callback-IsContained callback p c s)
      ]

  received-IsContained :
      (p : ParsedChunks V) (c : Connector V) (s : SessionAssociation)
      → IsContained (received V J texts raises p c s)
  unfolding received
  received-IsContained p c s = elim (Result-cases (header V J p)) [
    | inr (e, bad) ↦ rw (received, bad) (inl (refl, inr (e, refl)))
    | inl (message_type, good) ↦ rw (received, good) (dispatch-IsContained message_type p c s)
  ]

  content-IsContained :
      (o : Documents.Outcome (ParsedChunks V)) (c : Connector V) (s : SessionAssociation)
      → IsContained (process_read V J texts raises (content_read V J texts raises o) c s)
  unfolding content_read process_read
  content-IsContained (ok p) c s = received-IsContained p c s
  content-IsContained (err e) c s = elim (Bool-cases (is_content_error e)) [
    | inl caught ↦ rw (process_read, caught) (inl (refl, inl refl))
    | inr escapes ↦ rw (process_read, escapes) (inl (refl, inr (e, refl)))
  ]

  -- Whatever bytes arrive, as long as size_t counts them, `processMessage` runs at most one callback
  -- of the client. If it runs one, it throws exactly if that callback throws. If it runs none, it
  -- returns or ends with an error of the documents, be it an exception or a failed assert about the
  -- content, and never with an error of the parser.
  pub process_message-IsContained :
      (h : Host) (msg_txt : Bytes) (c : Connector V)
      → All IsByte msg_txt
      → length msg_txt < size_mod h.width
      → IsContained (process_message V J texts raises h msg_txt c)
  unfolding process_message message_read process_read
  process_message-IsContained h msg_txt c bytes room =
      elim (Result-cases (parse_message h msg_txt)) [
        | inl (m, parsed) ↦
            rw (process_message, message_read, parsed)
              (content-IsContained (get_parsed_chunks V J m c.base.validator) c
                c.session_association)
        | inr (e, failed) ↦ elim (message_error-or-fault e) [
          | inl caught ↦
              rw (process_message, message_read, failed, caught, process_read)
                (inl (refl, inl refl))
          | inr (f, faulty) ↦
              absurd (parse_message-ne-fault h msg_txt f bytes room (rw faulty at failed))
        ]
      ]
