-- ===== src/V1/Association/Accepted.antt =====
-- What a message changes of the request and the success of a session.
use Prim.Native.String.{String}
use text.Mathlib.Text.{◌==◌ as str_eq}
use text.Mathlib.TextEquality.{eq_iff}
use cpp_pcp_client.Base.{
  ◌≡◌, ◌⊎◌, inl, inr, refl, sym, ap, ◌∙◌, Bool, true, false, if◌then◌else◌, Bool-cases,
  Result-cases, ok, bind-eq-ok, ok-injective, arith,
}
use cpp_pcp_client.Validator.Errors.{Outcome}
use cpp_pcp_client.Validator.Valijson.{Valijson}
use cpp_pcp_client.ParsedChunks.{JsonContainer, ParsedChunks}
use cpp_pcp_client.V1.Association.{
  SessionAssociation, fail, assert_data, reason, answer, associate_response_callback,
  error_message_callback, ttl_message_callback, Incoming, unreadable, response, pcp_error,
  ttl_expired, unrelated, process_message,
}

-- The request identifier and the success of a session.
abbrev pub Keeps : SessionAssociation → SessionAssociation → Type 0
Keeps s t = (t.request_id ≡ s.request_id) × (t.success ≡ s.success)

fail-Keeps : (why : String) (s : SessionAssociation) → Keeps s (fail why s)
unfolding fail
fail-Keeps why s = (ground arith, ground arith)

fail_if-Keeps :
    (b : Bool) (why : String) (s : SessionAssociation) → Keeps s (if b then fail why s else s)
fail_if-Keeps true why s = fail-Keeps why s
fail_if-Keeps false why s = (refl, refl)

made-Keeps :
    (s : SessionAssociation) {t u : SessionAssociation}
    → Keeps s t
    → ◌≡◌ {A = Outcome SessionAssociation} (ok t) (ok u)
    → Keeps s u
made-Keeps s (k, l) e = let same = ok-injective e in (rw (← same) k, rw (← same) l)

module _ (V : Valijson) (J : JsonContainer V) where
  open V use {Json}
  open J use {includes, get_string, get_bool}

  -- A response that reports a success for the request.
  pub record IsAccepted (id : String) (p : ParsedChunks V) : Type 0 where
    pub reports_success : get_bool p.data_json "success" ≡ ok true
    pub answers_request : get_string p.data_json "id" ≡ ok id

  pcp_error-Keeps :
      (p : ParsedChunks V) (s t : SessionAssociation)
      → error_message_callback V J p s ≡ ok t
      → Keeps s t
  unfolding error_message_callback
  pcp_error-Keeps p s t e =
      let (_, _, e1) = bind-eq-ok (assert_data V J p) _ e in
      let (_, _, e2) = bind-eq-ok (get_string p.envelope "id") _ e1 in
      let (_, _, e3) = bind-eq-ok (get_string p.envelope "sender") _ e2 in
      let (description, _, e4) = bind-eq-ok (get_string p.data_json "description") _ e3 in
      let (cause, _, e5) =
        bind-eq-ok (if includes p.data_json "id" then get_string p.data_json "id" else ok "") _
          e4 in
      made-Keeps s (fail_if-Keeps _ description s) e5

  ttl_expired-Keeps :
      (p : ParsedChunks V) (s t : SessionAssociation)
      → ttl_message_callback V J p s ≡ ok t
      → Keeps s t
  unfolding ttl_message_callback
  ttl_expired-Keeps p s t e =
      let (_, _, e1) = bind-eq-ok (assert_data V J p) _ e in
      let (_, _, e2) = bind-eq-ok (get_string p.envelope "id") _ e1 in
      let (_, _, e3) = bind-eq-ok (get_string p.data_json "id") _ e2 in
      let (_, _, e4) = bind-eq-ok (get_string p.envelope "sender") _ e3 in
      made-Keeps s (fail_if-Keeps _ "Associate request's TTL expired" s) e4

  -- An answer keeps the session's request, and its success, or is one to the request.
  answer-cases :
      (success : Bool) (id : String) (d : Json) (s t : SessionAssociation)
      → answer V J success id d s ≡ ok t
      → Keeps s t ⊎ ((t.request_id ≡ s.request_id) × (t.success ≡ success) × (id ≡ s.request_id))
  unfolding answer
  answer-cases success id d s t e = elim (Bool-cases s.in_progress) [
    | inr idle ↦ inl (made-Keeps s (refl, refl) (rw idle at e))
    | inl busy ↦ elim (Bool-cases (str_eq id s.request_id)) [
      | inr other ↦ inl (made-Keeps s (refl, refl) (rw (busy, other) at e))
      | inl own ↦
          let (why, _, made) = bind-eq-ok (reason V J success d s) _ (rw (busy, own) at e) in
          let same = ok-injective made in
          inr (rw (← same) refl, rw (← same) refl, (eq_iff id s.request_id).0 own)
    ]
  ]

  response-cases :
      (p : ParsedChunks V) (s t : SessionAssociation)
      → associate_response_callback V J p s ≡ ok t
      → Keeps s t
        ⊎ ((t.request_id ≡ s.request_id) × ((t.success ≡ true) → IsAccepted s.request_id p))
  unfolding associate_response_callback
  response-cases p s t e =
      let (_, _, e1) = bind-eq-ok (assert_data V J p) _ e in
      let (_, _, e2) = bind-eq-ok (get_string p.envelope "id") _ e1 in
      let (_, _, e3) = bind-eq-ok (get_string p.envelope "sender") _ e2 in
      let (success, told, e4) = bind-eq-ok (get_bool p.data_json "success") _ e3 in
      let (id, named, e5) = bind-eq-ok (get_string p.data_json "id") _ e4 in
      elim (answer-cases success id p.data_json s t e5) [
        | inl kept ↦ inl kept
        | inr (request, given, own) ↦ inr (
          request,
          (λ h. record {
            reports_success = told ∙ ap ok (sym given ∙ h);
            answers_request = named ∙ ap ok own;
          }),
        )
      ]

  pub step_cases :
      (m : Incoming V J) (s : SessionAssociation)
      → Keeps s (process_message V J m s)
        ⊎ ((p : ParsedChunks V) × (m ≡ response p)
            × ((process_message V J m s).request_id ≡ s.request_id)
            × ((process_message V J m s).success ≡ true → IsAccepted s.request_id p))
  unfolding process_message
  step_cases (unreadable why) s = inl (fail-Keeps why s)
  step_cases (response p) s = elim (Result-cases (associate_response_callback V J p s)) [
    | inr (e, bad) ↦ rw bad (inl (refl, refl))
    | inl (t, good) ↦ rw good (elim (response-cases p s t good) [
      | inl kept ↦ inl kept
      | inr (request, accepted) ↦ inr (p, refl, request, accepted)
    ])
  ]
  step_cases (pcp_error p) s = elim (Result-cases (error_message_callback V J p s)) [
    | inr (e, bad) ↦ rw bad (inl (refl, refl))
    | inl (t, good) ↦ rw good (inl (pcp_error-Keeps p s t good))
  ]
  step_cases (ttl_expired p) s = elim (Result-cases (ttl_message_callback V J p s)) [
    | inr (e, bad) ↦ rw bad (inl (refl, refl))
    | inl (t, good) ↦ rw good (inl (ttl_expired-Keeps p s t good))
  ]
  step_cases unrelated s = inl (refl, refl)
