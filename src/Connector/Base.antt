-- ===== src/Connector/Base.antt =====
-- The class of lib/inc/cpp-pcp-client/connector/connector_base.hpp and
-- lib/src/connector/connector_base.cc, but for its monitoring, which is in Monitor. A callback of
-- the client is a number: the runs are in a list, and whether one throws is a parameter.
pub mod Registered
mod Tests
use Prim.Native.String.{String}
use cpp_pcp_client.Base.{
  ℕ, Bool, false, List, [], ◌∷◌, Option, none, some, if◌then◌else◌, Result, ok, err, guard, ◌>>=◌,
  ◌>>◌,
}
use cpp_pcp_client.Validator.Valijson.{Valijson, is_some}
use cpp_pcp_client.Validator.Schema.{Schema, SchemaError}
use cpp_pcp_client.Validator.Registry.{Validator, new_validator, register_schema, find}
use cpp_pcp_client.Validator.Errors as Documents
use cpp_pcp_client.V1.Errors as Messages
use cpp_pcp_client.Connector.Durations.{ℤ}
use cpp_pcp_client.Connector.Timings.{ConnectionTimings, new_timings}
use cpp_pcp_client.Connector.Connection.{Connection, make_connection, is_opened, returned, threw}
use cpp_pcp_client.Connector.Connection.Connect.{Round, Ended, exited, still_trying}
use cpp_pcp_client.Connector.Connection.Connect
use cpp_pcp_client.Connector.Monitor.{
  MonitorError, config_error, not_init_error, converted, ConnectorBase, stop_monitor_task_and_wait,
}
use cpp_pcp_client.Connector.ClientMetadata.{ClientMetadata}

-- MY_BROKER_URI
abbrev pub my_broker_uri : String
my_broker_uri = "pcp:///server"

-- What the connectors throw: the exceptions of documents, schemas, messages and connections, and
-- those of the client's callbacks.
pub data Thrown : Type 0 where
  document_error : Documents.Error → Thrown
  schema_error : SchemaError → Thrown
  message_error : Messages.Error → Thrown
  connector_error : MonitorError → Thrown
  callback_error : Thrown

abbrev pub thrown_as {ℓ κ} : {E : Type ℓ} {A : Type κ} → (E → Thrown) → Result E A → Result Thrown A
thrown_as f (ok a) = ok a
thrown_as f (err e) = err (f e)

-- The callbacks that the connectors register, and those of the client.
pub data Callback : Type 0 where
  associate_response_callback error_message_callback ttl_message_callback : Callback
  user : ℕ → Callback

-- How a call of `connect` ends, unless it goes on behind the rounds of the event loop.
pub data Connected : Type 0 where
  over : Option MonitorError → Connected
  connects_on : Connected

-- What `connect` makes of the end of `Connection::connect`.
unfoldable pub connected : Ended → Connected
connected (exited returned) = over none
connected (exited (threw e)) = over (some (converted e))
connected still_trying = connects_on

-- `std::map::insert`, which keeps what is there.
unfoldable pub insert_callback :
    String → Callback → List (String × Callback) → List (String × Callback)
insert_callback name callback pairs =
    if is_some (find name pairs) then pairs else (name, callback) ∷ pairs

module _ (V : Valijson) where
  pub record Connector : Type 0 where
    pub connection : Option Connection
    pub broker_ws_uris : List String
    pub client_metadata : ClientMetadata
    pub validator : Validator V
    pub schema_callback_pairs : List (String × Callback)
    pub error_callback : Option ℕ
    pub is_monitoring : Bool
    pub must_stop_monitoring : Bool
    pub monitor_exception : Option MonitorError

  unfoldable pub make_connector : List String → ClientMetadata → Connector
  make_connector broker_ws_uris client_metadata = record {
    connection = none;
    broker_ws_uris = broker_ws_uris;
    client_metadata = client_metadata;
    validator = new_validator V;
    schema_callback_pairs = [];
    error_callback = none;
    is_monitoring = false;
    must_stop_monitoring = false;
    monitor_exception = none;
  }

  -- The connector as its monitoring task sees it.
  unfoldable pub monitored : Connector → ConnectorBase
  monitored c = record {
    has_connection = is_some c.connection;
    pong_timeout_ms = c.client_metadata.pong_timeout_ms;
    is_monitoring = c.is_monitoring;
    must_stop_monitoring = c.must_stop_monitoring;
    monitor_exception = c.monitor_exception;
  }

  -- The destructor, given what the monitoring task throws last: it stops the task, and logs what is
  -- thrown again.
  unfoldable pub destroy : Option MonitorError → Connector → ConnectorBase × Option MonitorError
  unfolding monitored
  destroy last c =
      if c.is_monitoring
      then stop_monitor_task_and_wait last (monitored c)
      else (monitored c, c.monitor_exception)

  unfoldable pub register_message_callback :
      Schema V → Callback → Connector → Documents.Outcome Connector
  unfolding insert_callback
  register_message_callback schema callback c = do
    v ← register_schema V c.validator schema
    ok (record c {
      validator = v;
      schema_callback_pairs = insert_callback schema.name callback c.schema_callback_pairs;
    })

  unfoldable pub set_pcp_error_callback : ℕ → Connector → Connector
  set_pcp_error_callback callback c = record c { error_callback = some callback }

  -- The connection, which is created if there is none; its constructor can fail.
  unfoldable pub initialized_connection : Bool → Connector → Result MonitorError Connection
  initialized_connection init_fails c = elim c.connection [
    | some connection ↦ ok connection
    | none ↦
        if init_fails
        then err config_error
        else ok (make_connection c.broker_ws_uris c.client_metadata.pong_timeouts_before_retry)
  ]

  -- `ConnectorBase::connect`, over the rounds of the event loop.
  unfoldable pub connect : Bool → ℤ → List Round → Connector → Connector × Connected
  unfolding initialized_connection connected
  connect init_fails max_connect_attempts rounds c = elim (initialized_connection init_fails c) [
    | err e ↦ (c, over (some e))
    | ok connection ↦
        let run = Connect.connect max_connect_attempts connection rounds in
        (record c { connection = some run.connection }, connected run.end)
  ]

  unfoldable pub is_connected : Connector → Bool
  is_connected c = elim c.connection [
    | none ↦ false
    | some connection ↦ is_opened connection.connection_state
  ]

  unfoldable pub get_connection_timings : Connector → ConnectionTimings
  get_connection_timings c = elim c.connection [
    | none ↦ new_timings
    | some connection ↦ connection.timings
  ]

  unfoldable pub check_connection_initialization : Connector → Result MonitorError (Unit {0})
  check_connection_initialization c = guard (is_some c.connection) not_init_error
