-- ===== src/V1/Association.antt =====
-- The association of a session: lib/src/connector/v1/session_association.cc and the callbacks of
-- lib/src/connector/v1/connector.cc that change it. What a callback throws ends in the handler of
-- the WebSocket message, which leaves the state as it is; a failed assert ends the
-- program, and the state is then the last one.
pub mod Accepted
pub mod Decided
mod Tests
use Prim.Native.String.{String}
use text.Mathlib.Text.{◌==◌ as str_eq}
use cpp_pcp_client.Base.{
  ℕ, Bool, true, false, not, ◌&&◌, List, [], ◌∷◌, if◌then◌else◌, ok, err, ◌>>◌, guard, ◌>>=◌,
}
use cpp_pcp_client.Validator.Errors.{assertion_failed, Outcome}
use cpp_pcp_client.Validator.Valijson.{Valijson}
use cpp_pcp_client.Validator.Schema.{ContentType, json, binary}
use cpp_pcp_client.ParsedChunks.{JsonContainer, ParsedChunks}
use cpp_pcp_client.Connector.Timings.{AssociationTimings, reset_association, set_completed}

pub record SessionAssociation : Type 0 where
  pub success : Bool
  pub in_progress : Bool
  pub got_messaging_failure : Bool
  pub request_id : String
  pub error : String

-- SessionAssociation::reset
unfoldable pub reset : SessionAssociation → SessionAssociation
reset s = record {
  success = false;
  in_progress = false;
  got_messaging_failure = false;
  request_id = "";
  error = "";
}

-- What `Connector::connect` does to the session before it connects.
unfoldable pub begin : SessionAssociation → SessionAssociation
unfolding reset
begin s = record (reset s) { in_progress = true }

-- `associateSession`, with the identifier of the request that it sends.
unfoldable pub associate_session :
    ℕ → String → SessionAssociation × AssociationTimings → SessionAssociation × AssociationTimings
associate_session now id (s, t) = (
  record s { got_messaging_failure = false; error = ""; request_id = id },
  reset_association now t,
)

-- How `Connector::connect` ends after its wait.
pub data Associated : Type 0 where
  associated association_error association_response_failure : Associated

unfoldable pub conclude :
    ℕ
    → SessionAssociation
    → AssociationTimings
    → (SessionAssociation × AssociationTimings) × Associated
unfolding reset
conclude now s t =
    if s.got_messaging_failure
    then ((reset s, set_completed now false t), association_error)
    else if s.in_progress
    then ((reset s, t), association_error)
    else if not s.success
    then ((reset s, set_completed now false t), association_response_failure)
    else ((s, set_completed now true t), associated)

-- The failure of the request, where the session is in progress.
unfoldable pub fail : String → SessionAssociation → SessionAssociation
fail why s = if s.in_progress then record s { got_messaging_failure = true; error = why } else s

abbrev pub is_json : ContentType → Bool
is_json json = true
is_json binary = false

module _ (V : Valijson) (J : JsonContainer V) where
  open V use {Json}
  open J use {includes, get_string, get_bool}

  -- The two asserts at the start of the callbacks.
  unfoldable pub assert_data : ParsedChunks V → Outcome (Unit {0})
  assert_data p = guard p.has_data assertion_failed >> guard (is_json p.data_type) assertion_failed

  -- The reason of a response, which replaces the error unless it is a success.
  unfoldable pub reason : Bool → Json → SessionAssociation → Outcome String
  reason success data_json s =
      if success
      then ok s.error
      else if includes data_json "reason"
      then get_string data_json "reason"
      else ok ""

  -- What a response does to the session.
  unfoldable pub answer : Bool → String → Json → SessionAssociation → Outcome SessionAssociation
  unfolding reason
  answer success request_id data_json s =
      if not s.in_progress then ok s else if not (str_eq request_id s.request_id) then ok s else (do
        error ← reason success data_json s
        ok (record s { error = error; success = success; in_progress = false }))

  unfoldable pub associate_response_callback :
      ParsedChunks V → SessionAssociation → Outcome SessionAssociation
  unfolding assert_data answer
  associate_response_callback p s = do
    assert_data p
    response_id ← get_string p.envelope "id"
    sender_uri ← get_string p.envelope "sender"
    success ← get_bool p.data_json "success"
    request_id ← get_string p.data_json "id"
    answer success request_id p.data_json s

  unfoldable pub error_message_callback :
      ParsedChunks V → SessionAssociation → Outcome SessionAssociation
  unfolding assert_data fail
  error_message_callback p s = do
    assert_data p
    error_id ← get_string p.envelope "id"
    sender_uri ← get_string p.envelope "sender"
    description ← get_string p.data_json "description"
    cause_id ← if includes p.data_json "id" then get_string p.data_json "id" else ok ""
    ok (if not (str_eq cause_id "") && str_eq cause_id s.request_id then fail description s else s)

  unfoldable pub ttl_message_callback :
      ParsedChunks V → SessionAssociation → Outcome SessionAssociation
  unfolding assert_data fail
  ttl_message_callback p s = do
    assert_data p
    ttl_msg_id ← get_string p.envelope "id"
    expired_msg_id ← get_string p.data_json "id"
    sender ← get_string p.envelope "sender"
    ok (
        if not (str_eq expired_msg_id "") && str_eq expired_msg_id s.request_id
        then fail "Associate request's TTL expired" s
        else s)

  -- A message that `processMessage` cannot read, one for each of the three callbacks, or another.
  pub data Incoming : Type 0 where
    unreadable : String → Incoming
    response : ParsedChunks V → Incoming
    pcp_error : ParsedChunks V → Incoming
    ttl_expired : ParsedChunks V → Incoming
    unrelated : Incoming

  abbrev pub or_same : SessionAssociation → Outcome SessionAssociation → SessionAssociation
  or_same s (ok t) = t
  or_same s (err e) = s

  -- `processMessage` as far as it changes the session.
  unfoldable pub process_message : Incoming → SessionAssociation → SessionAssociation
  unfolding associate_response_callback error_message_callback ttl_message_callback fail
  process_message (unreadable why) s = fail why s
  process_message (response p) s = or_same s (associate_response_callback p s)
  process_message (pcp_error p) s = or_same s (error_message_callback p s)
  process_message (ttl_expired p) s = or_same s (ttl_message_callback p s)
  process_message unrelated s = s
