-- ===== src/V1/Association/Decided.antt =====
-- The response to a session's own request decides the association.
use Prim.Native.String.{String}
use text.Mathlib.Text.{◌==◌ as str_eq}
use text.Mathlib.TextEquality.{eq_iff}
use cpp_pcp_client.Base.{ℕ, ◌≡◌, refl, Bool, true, false, if◌then◌else◌, ok}
use cpp_pcp_client.Validator.Valijson.{Valijson}
use cpp_pcp_client.ParsedChunks.{JsonContainer, ParsedChunks}
use cpp_pcp_client.Connector.Timings.{AssociationTimings}
use cpp_pcp_client.V1.Association.{
  SessionAssociation, conclude, associated, association_response_failure, assert_data, reason,
  answer, associate_response_callback, response, process_message,
}

module _ (V : Valijson) (J : JsonContainer V) where
  open V use {Json}
  open J use {includes, get_string, get_bool}

  answered : Bool → String → SessionAssociation → SessionAssociation
  answered success why s = record s { error = why; success = success; in_progress = false }

  answer-own :
      (success : Bool) (why : String) (d : Json) (s : SessionAssociation)
      → s.in_progress ≡ true
      → reason V J success d s ≡ ok why
      → answer V J success s.request_id d s ≡ ok (answered success why s)
  unfolding answer answered
  answer-own success why d s busy reasoned =
      let same : str_eq s.request_id s.request_id ≡ true =
        (eq_iff s.request_id s.request_id).1 refl in
      rw (answer, reasoned, busy, same)

  conclude-answered :
      (now : ℕ) (success : Bool) (why : String) (s : SessionAssociation) (t : AssociationTimings)
      → s.got_messaging_failure ≡ false
      → (conclude now (answered success why s) t).1
        ≡ (if success then associated else association_response_failure)
  unfolding conclude answered
  conclude-answered now true why s t fine = rw (conclude, fine)
  conclude-answered now false why s t fine = rw (conclude, fine)

  -- The response to the request of a session in progress where nothing has failed decides how
  -- `connect` ends, if it passes the asserts and its fields are there: with an associated session if
  -- it reports success, and else with association_response_failure.
  pub response-decides :
      (now : ℕ) (p : ParsedChunks V) (s : SessionAssociation) (t : AssociationTimings)
      (id sender why : String) (success : Bool)
      → s.in_progress ≡ true
      → s.got_messaging_failure ≡ false
      → assert_data V J p ≡ ok tt
      → get_string p.envelope "id" ≡ ok id
      → get_string p.envelope "sender" ≡ ok sender
      → get_bool p.data_json "success" ≡ ok success
      → get_string p.data_json "id" ≡ ok s.request_id
      → reason V J success p.data_json s ≡ ok why
      → (conclude now (process_message V J (response p) s) t).1
        ≡ (if success then associated else association_response_failure)
  unfolding process_message associate_response_callback
  response-decides now p s t id sender why success busy fine asserted named sent told own reasoned =
      let own_answer = answer-own success why p.data_json s busy reasoned in
      let called : associate_response_callback V J p s ≡ ok (answered success why s) =
        rw (associate_response_callback, asserted, named, sent, told, own, own_answer) in
      rw called (conclude-answered now success why s t fine)
