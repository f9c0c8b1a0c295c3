-- ===== src/Connector/Base/Tests.antt =====
-- A registration of a callback, and the identity of a client.
use Prim.Native.String.{String, ◌++◌ as ◌<>◌}
use text.Mathlib.TextEquality.{eq_iff}
use cpp_pcp_client.Base.{◌≡◌, ◌≢◌, ◌↔◌, refl, true, false, [], ◌∷◌, none, some, ok, err}
use cpp_pcp_client.Validator.Errors.{schema_redefinition_error}
use cpp_pcp_client.Validator.Registry.{find, register_schema}
use cpp_pcp_client.Validator.Documents.{documents}
use cpp_pcp_client.Documents.{objects}
use cpp_pcp_client.Connector.ClientMetadata.{
  ClientMetadata, OpenSsl, Arguments, with_crl, common_name_entry, log_none, make_client_metadata,
  pcp_uri_scheme,
}
use cpp_pcp_client.Connector.ClientMetadata.Identity.{IsUsable, make_client_metadata_iff}
use cpp_pcp_client.Connector.Base.{user, Connector, make_connector, register_message_callback}
use cpp_pcp_client.Connector.Base.Registered.{IsCovered, Configured, made, register-dispatches}

-- A system on which every file is there and every key fits.
abbrev ssl : OpenSsl
ssl = record {
  new_context = true;
  use_certificate_file = λ crt. true;
  is_encrypted = λ key. false;
  use_private_key_file = λ key. true;
  check_private_key = λ key crt. true;
  open_file = λ crt. true;
  read_x509 = λ crt. some ((common_name_entry, "host") ∷ []);
}

abbrev arguments : Arguments
arguments = record {
  client_type = "agent";
  ca = "ca.pem";
  crt = "crt.pem";
  key = "key.pem";
  extra = with_crl "crl.pem" "";
  ws_connection_timeout_ms = 5000;
  pong_timeouts_before_retry = 3;
  pong_timeout_ms = 5000;
}

make_client_metadata_iff_example : IsUsable ssl "crt.pem" "key.pem" "host" ↔ (
    (m : ClientMetadata) × (make_client_metadata ssl arguments ≡ ok m)
    × (m.common_name ≡ "host")
    × (m.client_type ≡ "agent")
    × (m.uri ≡ pcp_uri_scheme <> "host" <> "/" <> "agent"))
make_client_metadata_iff_example = make_client_metadata_iff ssl arguments "host"

abbrev agent : ClientMetadata
agent = record {
  ca = "ca.pem";
  crt = "crt.pem";
  key = "key.pem";
  crl = "";
  client_type = "agent";
  common_name = "host";
  uri = "pcp://host/agent";
  proxy = "";
  ws_connection_timeout_ms = 5000;
  pong_timeouts_before_retry = 3;
  pong_timeout_ms = 5000;
  loglevel = log_none;
  logstream = none;
}

abbrev fresh : Connector documents
fresh = record {
  connection = none;
  broker_ws_uris = "wss://broker/pcp" ∷ [];
  client_metadata = agent;
  validator = [];
  schema_callback_pairs = [];
  error_callback = none;
  is_monitoring = false;
  must_stop_monitoring = false;
  monitor_exception = none;
}

abbrev registered : Connector documents
registered = record fresh {
  validator = ("greeting", objects "greeting") ∷ [];
  schema_callback_pairs = ("greeting", user 4) ∷ [];
}

fresh-Configured : Configured documents fresh
unfolding make_connector
fresh-Configured = made ("wss://broker/pcp" ∷ []) agent

registers : register_message_callback documents (objects "greeting") (user 4) fresh ≡ ok registered
unfolding register_message_callback register_schema find
registers = refl

differs : ◌≢◌ {A = String} "farewell" "greeting"
differs e = let same = (eq_iff "farewell" "greeting").1 e in cc

register-dispatches_example :
    (find "greeting" registered.schema_callback_pairs ≡ some (user 4))
    × (find "farewell" registered.schema_callback_pairs
        ≡ find "farewell" fresh.schema_callback_pairs)
    × (register_message_callback documents (objects "greeting") (user 5) registered
        ≡ err (schema_redefinition_error "greeting"))
    × IsCovered documents registered.validator registered.schema_callback_pairs
register-dispatches_example =
    register-dispatches documents fresh registered (objects "greeting") (objects "greeting")
      (user 4) (user 5) "farewell" fresh-Configured registers differs refl
