-- ===== src/V1/Connector/Samples.antt =====
-- Connectors for the tests.
use cpp_pcp_client.Base.{false, [], ◌∷◌, none, some}
use cpp_pcp_client.Validator.Documents.{documents}
use cpp_pcp_client.Documents.{with_greeting}
use cpp_pcp_client.Connector.ClientMetadata.{ClientMetadata, log_none}
use cpp_pcp_client.Connector.Connection.{opened, Connection}
use cpp_pcp_client.Connector.Base.{user}
use cpp_pcp_client.Connector.Base
use cpp_pcp_client.V1.Serialization.{Host, little, big, size_32, size_64}
use cpp_pcp_client.V1.Connector.{Connector, Stamp, new_session, new_association_timings}
use cpp_pcp_client.V1.Connector.Dispatch.{Texts}

abbrev pub agent : ClientMetadata
agent = record {
  ca = "ca.pem";
  crt = "crt.pem";
  key = "key.pem";
  crl = "";
  client_type = "agent";
  common_name = "host";
  uri = "pcp://host/agent";
  proxy = "";
  ws_connection_timeout_ms = 5000;
  pong_timeouts_before_retry = 3;
  pong_timeout_ms = 5000;
  loglevel = log_none;
  logstream = none;
}

abbrev pub link : Connection
link = record {
  broker_ws_uris = "wss://broker/pcp" ∷ [];
  pong_timeouts_before_retry = 3;
  timings = record {
    start = 0;
    tcp_pre_init = 0;
    tcp_post_init = 0;
    open_at = 0;
    closing_handshake = 0;
    close_at = 0;
    is_open = false;
    is_closing_started = false;
    is_failed = false;
    is_closed = false;
  };
  connection_state = opened;
  connection_target_index = 0;
  consecutive_pong_timeouts = 0;
  connection_backoff_ms = 2000;
}

abbrev pub base : Base.Connector documents
base = record {
  connection = some link;
  broker_ws_uris = "wss://broker/pcp" ∷ [];
  client_metadata = agent;
  validator = with_greeting;
  schema_callback_pairs = ("greeting", user 4) ∷ [];
  error_callback = none;
  is_monitoring = false;
  must_stop_monitoring = false;
  monitor_exception = none;
}

abbrev pub connector : Connector documents
connector = record {
  base = base;
  associate_response_callback = none;
  ttl_expired_callback = none;
  session_association = new_session;
  association_timeout_s = 5;
  association_timings = new_association_timings;
}

abbrev pub pc : Host
pc = record { endian = little; width = size_64; max_size = 1000000 }

abbrev pub board : Host
board = record { endian = big; width = size_32; max_size = 1000 }

abbrev pub stamp : Stamp
stamp = record { uuid = "12"; iso8601_time = λ timeout. "2016-01-01T00:00:05Z" }

abbrev pub texts : Texts
texts = record { deserialization = λ e. "Failed to deserialize"; content = λ e. "Invalid envelope" }
