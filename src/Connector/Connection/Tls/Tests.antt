-- ===== src/Connector/Connection/Tls/Tests.antt =====
-- A context for the broker of a connection.
use text.Mathlib.Text.{◌==◌ as str_eq}
use cpp_pcp_client.Base.{◌≡◌, ◌⊎◌, ◌<◌, refl, true, ◌&&◌, [], ◌∷◌, none, some, if◌then◌else◌, ok}
use cpp_pcp_client.Connector.Connection.{Connection, make_connection, get_ws_uri}
use cpp_pcp_client.Connector.ClientMetadata.{ClientMetadata, log_none}
use cpp_pcp_client.Connector.Connection.Tls.{
  Asio, Context, tls_options, new_store, on_tls_init, verbose_verification,
}
use cpp_pcp_client.Connector.Connection.Tls.Verified.{checking_store, on_tls_init-verifies}

abbrev asio : Asio
asio = record {
  new_context = true;
  set_options = λ options. true;
  use_certificate_file = λ crt. true;
  use_private_key_file = λ key. true;
  load_verify_file = λ ca. true;
  load_crl_file = λ crl. 2;
  set_verify = true;
  get_host = λ uri. if str_eq uri "wss://broker/pcp" then "broker" else "";
  rfc2818_verification = λ host preverified. preverified && str_eq host "broker";
}

abbrev client : ClientMetadata
client = record {
  ca = "ca.pem";
  crt = "crt.pem";
  key = "key.pem";
  crl = "crl.pem";
  client_type = "agent";
  common_name = "host";
  uri = "pcp://host/agent";
  proxy = "";
  ws_connection_timeout_ms = 5000;
  pong_timeouts_before_retry = 3;
  pong_timeout_ms = 5000;
  loglevel = log_none;
  logstream = none;
}

abbrev link : Connection
link = make_connection ("wss://broker/pcp" ∷ []) 3

abbrev context : Context
context = record {
  options = tls_options;
  crt = "crt.pem";
  key = "key.pem";
  ca = "ca.pem";
  store = checking_store "crl.pem";
  verify_peer = true;
  verified_host = "broker";
}

link-uri : get_ws_uri link ≡ some "wss://broker/pcp"
unfolding get_ws_uri make_connection
link-uri = refl

context-made : on_tls_init asio client link ≡ ok context
unfolding on_tls_init get_ws_uri make_connection
context-made = refl

on_tls_init-verifies_example :
    (asio.use_certificate_file "crt.pem" ≡ true)
    × (asio.use_private_key_file "key.pem" ≡ true)
    × (asio.load_verify_file "ca.pem" ≡ true)
    × (context.verify_peer ≡ true)
    × (verbose_verification asio context true ≡ asio.rfc2818_verification "broker" true)
    × (((client.crl ≡ "") × (context.store ≡ new_store))
        ⊎ ((0 < 2) × (context.store ≡ checking_store "crl.pem")))
on_tls_init-verifies_example =
    on_tls_init-verifies asio client link context "wss://broker/pcp" true link-uri context-made
