-- ===== src/V1/Connector.antt =====
-- The class of lib/inc/cpp-pcp-client/connector/v1/connector.hpp and
-- lib/src/connector/v1/connector.cc: its state and its constructors. Log calls are left out.
pub mod Constructed
pub mod Sending
pub mod Dispatch
pub mod Connect
pub mod Delivery
pub mod Failure
pub mod Samples
mod Tests
use Prim.Native.String.{String}
use cpp_pcp_client.Base.{
  ℕ, Bool, false, List, [], ◌∷◌, Option, none, some, if◌then◌else◌, Result, ok, ◌>>=◌, ◌>>◌,
}
use cpp_pcp_client.Validator.Valijson.{Valijson}
use cpp_pcp_client.Validator.Schema.{Schema, SchemaOutcome}
use cpp_pcp_client.Validator.Registry.{register_schema}
use cpp_pcp_client.Connector.Timings.{AssociationTimings}
use cpp_pcp_client.Connector.ClientMetadata.{
  ClientMetadata, OpenSsl, Arguments, make_client_metadata,
}
use cpp_pcp_client.Connector.Base.{
  Thrown, document_error, schema_error, connector_error, thrown_as, Callback,
  associate_response_callback, error_message_callback, ttl_message_callback,
  register_message_callback,
}
use cpp_pcp_client.Connector.Base
use cpp_pcp_client.V1.Schemas.{
  envelope_schema, debug_schema, debug_item_schema, associate_response_schema, error_message_schema,
  ttl_expired_schema,
}
use cpp_pcp_client.V1.Association.{SessionAssociation}

-- What `get_UUID` and `get_ISO8601_time` answer.
pub record Stamp : Type 0 where
  pub uuid : String
  pub iso8601_time : ℕ → String

-- SessionAssociation::SessionAssociation, and the initial timings.
abbrev pub new_session : SessionAssociation
new_session = record {
  success = false;
  in_progress = false;
  got_messaging_failure = false;
  request_id = "";
  error = "";
}

abbrev pub new_association_timings : AssociationTimings
new_association_timings = record {
  start = 0;
  association = 0;
  close_at = 0;
  completed = false;
  success = false;
  closed = false;
}

module _ (V : Valijson) where
  pub record Connector : Type 0 where
    pub base : Base.Connector V
    pub associate_response_callback : Option ℕ
    pub ttl_expired_callback : Option ℕ
    pub session_association : SessionAssociation
    pub association_timeout_s : ℕ
    pub association_timings : AssociationTimings

  -- A call of `registerSchema` on the validator, and one of `registerMessageCallback`, with the
  -- schema that is made for it.
  unfoldable pub with_schema :
      SchemaOutcome (Schema V) → Base.Connector V → Result Thrown (Base.Connector V)
  with_schema made c = do
    schema ← thrown_as schema_error made
    v ← thrown_as document_error (register_schema V c.validator schema)
    ok (record c { validator = v })

  unfoldable pub with_callback :
      SchemaOutcome (Schema V) → Callback → Base.Connector V → Result Thrown (Base.Connector V)
  with_callback made callback c = do
    schema ← thrown_as schema_error made
    thrown_as document_error (register_message_callback V schema callback c)

  -- The bodies of the constructors.
  unfoldable pub register_protocol : Base.Connector V → Result Thrown (Base.Connector V)
  register_protocol c0 = do
    c1 ← with_schema (envelope_schema V) c0
    c2 ← with_schema (debug_schema V) c1
    c3 ← with_schema (debug_item_schema V) c2
    c4 ← with_callback (associate_response_schema V) associate_response_callback c3
    c5 ← with_callback (error_message_schema V) error_message_callback c4
    with_callback (ttl_expired_schema V) ttl_message_callback c5

  unfoldable pub of_metadata : List String → ClientMetadata → ℕ → Result Thrown Connector
  unfolding register_protocol
  of_metadata broker_ws_uris client_metadata association_timeout_s = do
    base ← register_protocol (Base.make_connector V broker_ws_uris client_metadata)
    ok (record {
      base = base;
      associate_response_callback = none;
      ttl_expired_callback = none;
      session_association = new_session;
      association_timeout_s = association_timeout_s;
      association_timings = new_association_timings;
    })

  -- The constructors with several brokers, and those with one.
  pub make_connector : OpenSsl → List String → Arguments → ℕ → Result Thrown Connector
  unfolding of_metadata
  make_connector ssl broker_ws_uris a association_timeout_s = do
    client_metadata ← thrown_as connector_error (make_client_metadata ssl a)
    of_metadata broker_ws_uris client_metadata association_timeout_s

  unfoldable one_broker : OpenSsl → String → Arguments → ℕ → Result Thrown Connector
  unfolding make_connector
  one_broker ssl broker_ws_uri = make_connector ssl (broker_ws_uri ∷ [])

  unfoldable pub set_associate_callback : ℕ → Connector → Connector
  set_associate_callback callback c = record c { associate_response_callback = some callback }

  unfoldable pub set_ttl_expired_callback : ℕ → Connector → Connector
  set_ttl_expired_callback callback c = record c { ttl_expired_callback = some callback }

  unfoldable pub is_associated : Connector → Bool
  is_associated c = if Base.is_connected V c.base then c.session_association.success else false
