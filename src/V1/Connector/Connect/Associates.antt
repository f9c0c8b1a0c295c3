-- ===== src/V1/Connector/Connect/Associates.antt =====
-- `connect` returns only behind a response of success to the request that was sent last.
use Prim.Native.String.{String}
use cpp_pcp_client.Base.{
  ℕ, ◌≡◌, refl, ap, ◌∙◌, ◌⊎◌, inl, inr, Bool, true, false, List, [], ◌∷◌, some, Option-cases,
  Bool-cases, Result-cases, ok,
}
use cpp_pcp_client.Validator.Valijson.{Valijson}
use cpp_pcp_client.Validator.Registry.{Validator, find}
use cpp_pcp_client.ParsedChunks.{JsonContainer, ParsedChunks}
use cpp_pcp_client.JsonWriter.{JsonWriter}
use cpp_pcp_client.Connector.Base.{Callback, user}
use cpp_pcp_client.V1.Serialization.{Bytes, Host}
use cpp_pcp_client.V1.Association.{associate_session, response}
use cpp_pcp_client.V1.Association.Accepted.{IsAccepted, Keeps, step_cases}
use cpp_pcp_client.V1.Connector.{Connector}
use cpp_pcp_client.V1.Connector.Dispatch.{
  Texts, Read, unreadable, readable, escaped, message_read, header, process_message, hook_raises,
}
use cpp_pcp_client.V1.Connector.Dispatch.Refined.{kind, kind_of_type, classify, process_read_lem}
use cpp_pcp_client.V1.Connector.Connect.{
  SessionEvent, opens, receives, loses, associate, handle_session, handle_sessions,
}

module _ (V : Valijson) (J : JsonContainer V) (W : JsonWriter V) (texts : Texts)
    (raises : ℕ → ParsedChunks V → Bool) where
  -- The message is read, goes to the callback for responses, and reports success for the request.
  pub record IsAcceptance (h : Host) (v : Validator V) (callbacks : List (String × Callback))
      (id : String) (m : Bytes) : Type 0 where
    pub chunks : ParsedChunks V
    pub message_type : String
    pub is_read : message_read V J texts raises h v m ≡ readable chunks
    pub is_typed : header V J chunks ≡ ok message_type
    pub goes_to : find message_type callbacks ≡ some Callback.associate_response_callback
    pub is_accepted : IsAccepted V J id chunks

  -- Such a message arrives for the request that was sent last before it; at first, for `id`.
  abbrev pub Accepts :
      Host → Validator V → List (String × Callback) → String → List SessionEvent → Type 0
  Accepts h v callbacks id [] = ⊥
  Accepts h v callbacks id (opens now stamp ec ∷ es) = Accepts h v callbacks stamp.uuid es
  Accepts h v callbacks id (receives m ∷ es) =
      IsAcceptance h v callbacks id m ⊎ Accepts h v callbacks id es
  Accepts h v callbacks id (loses now ∷ es) = Accepts h v callbacks id es

  kind-response :
      (callback : Callback) (p q : ParsedChunks V) (c : Connector V)
      → kind V J texts raises callback p c ≡ response q
      → (callback ≡ Callback.associate_response_callback) × (p ≡ q)
  unfolding kind
  kind-response Callback.associate_response_callback p q c e = (refl, cc)
  kind-response Callback.error_message_callback p q c e =
      elim (Bool-cases (hook_raises V J texts raises c.base.error_callback p)) [
        | inl raises_it ↦ cc (rw raises_it at e)
        | inr fine ↦ cc (rw fine at e)
      ]
  kind-response Callback.ttl_message_callback p q c e =
      elim (Bool-cases (hook_raises V J texts raises c.ttl_expired_callback p)) [
        | inl raises_it ↦ cc (rw raises_it at e)
        | inr fine ↦ cc (rw fine at e)
      ]
  kind-response (user n) p q c e = cc

  typed-response :
      (t : String) (p q : ParsedChunks V) (c : Connector V)
      → kind_of_type V J texts raises t p c ≡ response q
      → (find t c.base.schema_callback_pairs ≡ some Callback.associate_response_callback) × (p ≡ q)
  unfolding kind_of_type
  typed-response t p q c e = elim (Option-cases (find t c.base.schema_callback_pairs)) [
    | inl missing ↦ cc (rw (kind_of_type, missing) at e)
    | inr (callback, found) ↦
        let (is_response, same) = kind-response callback p q c (rw (kind_of_type, found) at e) in
        (found ∙ ap some is_response, same)
  ]

  classify-response :
      (r : Read V) (q : ParsedChunks V) (c : Connector V)
      → classify V J texts raises r c ≡ response q
      → (r ≡ readable q)
        × ((t : String) × (header V J q ≡ ok t)
            × (find t c.base.schema_callback_pairs ≡ some Callback.associate_response_callback))
  unfolding classify
  classify-response (unreadable why) q c e = cc
  classify-response (escaped x) q c e = cc
  classify-response (readable p) q c e = elim (Result-cases (header V J p)) [
    | inr (x, bad) ↦ cc (rw (classify, bad) at e)
    | inl (t, good) ↦
        let (found, same) = typed-response t p q c (rw (classify, good) at e) in
        (ap readable same, (t, rw (← same) good, found))
  ]

  -- A message leaves the request and the success of the session, or is an acceptance.
  message_cases :
      (h : Host) (m : Bytes) (c : Connector V)
      → Keeps c.session_association (process_message V J texts raises h m c).session
        ⊎ (((process_message V J texts raises h m c).session.request_id
              ≡ c.session_association.request_id)
            × ((process_message V J texts raises h m c).session.success ≡ true
                → IsAcceptance h c.base.validator c.base.schema_callback_pairs
                    c.session_association.request_id m))
  unfolding process_message
  message_cases h m c =
      let r = message_read V J texts raises h c.base.validator m in
      rw (process_read_lem V J texts raises r c c.session_association)
        (elim (step_cases V J (classify V J texts raises r c) c.session_association) [
          | inl kept ↦ inl kept
          | inr (p, is_response, request, accepted) ↦
              let (is_read, (t, is_typed, goes_to)) = classify-response r p c is_response in
              inr (
                request,
                λ done. record {
                  chunks = p;
                  message_type = t;
                  is_read = is_read;
                  is_typed = is_typed;
                  goes_to = goes_to;
                  is_accepted = accepted done;
                },
              )
        ])

  pub waiting-Accepts :
      (h : Host) (es : List SessionEvent) (c : Connector V)
      → c.session_association.success ≡ false
      → (handle_sessions V J W texts raises h es c).session_association.success ≡ true
      → Accepts h c.base.validator c.base.schema_callback_pairs c.session_association.request_id es
  unfolding handle_sessions handle_session associate associate_session
  waiting-Accepts h [] c fresh done = cc
  waiting-Accepts h (opens now stamp ec ∷ es) c fresh done =
      waiting-Accepts h es (handle_session V J W texts raises h (opens now stamp ec) c) fresh done
  waiting-Accepts h (loses now ∷ es) c fresh done =
      waiting-Accepts h es (handle_session V J W texts raises h (loses now) c) fresh done
  waiting-Accepts h (receives m ∷ es) c fresh done =
      let next = handle_session V J W texts raises h (receives m) c in
      elim (message_cases h m c) [
        | inl (request, same) ↦ inr (rw request at (waiting-Accepts h es next (same ∙ fresh) done))
        | inr (request, accepted) ↦ elim (Bool-cases next.session_association.success) [
          | inl now_done ↦ inl (accepted now_done)
          | inr not_yet ↦ inr (rw request at (waiting-Accepts h es next not_yet done))
        ]
      ]
