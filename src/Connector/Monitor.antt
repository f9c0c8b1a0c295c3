-- ===== src/Connector/Monitor.antt =====
-- The monitoring of lib/inc/cpp-pcp-client/connector/connector_base.hpp and
-- lib/src/connector/connector_base.cc. A `Tick` is what the task meets in one pass of its loop:
-- whether a stop was asked for by the end of the wait, whether the connection is open, and what
-- `connect`, which the connectors override, and `ping` throw, if anything.
pub mod Laws
mod Tests
use cpp_pcp_client.Base.{
  ℕ, ◌*◌, ◌%◌, ◌^◌, Bool, true, false, not, ◌&&◌, ◌||◌, leb, if◌then◌else◌, List, [], ◌∷◌, Option,
  none, some, Result, ok, guard, ◌>>=◌, ◌>>◌,
}
use cpp_pcp_client.Connector.Connection.{
  ConnectionError, connection_processing_error, connection_fatal_error, proxy_exception,
  division_by_zero, assertion_failed,
}

-- The exceptions of lib/inc/cpp-pcp-client/connector/errors.hpp, and any other.
pub data MonitorError : Type 0 where
  config_error association_error processing_error association_response_failure : MonitorError
  not_init_error : MonitorError
  fatal_error : ℕ → MonitorError
  other_error : MonitorError

-- What `ConnectorBase::connect` makes of an exception of `Connection::connect`.
unfoldable pub converted : ConnectionError → MonitorError
converted connection_processing_error = config_error
converted (connection_fatal_error n) = fatal_error n
converted proxy_exception = other_error
converted division_by_zero = other_error
converted assertion_failed = other_error

pub record ConnectorBase : Type 0 where
  pub has_connection : Bool
  pub pong_timeout_ms : ℕ
  pub is_monitoring : Bool
  pub must_stop_monitoring : Bool
  pub monitor_exception : Option MonitorError

unfoldable pub make_connector : ℕ → ConnectorBase
make_connector pong_timeout_ms = record {
  has_connection = false;
  pong_timeout_ms = pong_timeout_ms;
  is_monitoring = false;
  must_stop_monitoring = false;
  monitor_exception = none;
}

pub record Tick : Type 0 where
  pub stop_requested : Bool
  pub is_connected : Bool
  pub connect_throws : Option MonitorError
  pub ping_throws : Option MonitorError

unfoldable pub check_connection_initialization : ConnectorBase → Result MonitorError (Unit {0})
check_connection_initialization c = guard c.has_connection not_init_error

-- Both numbers are converted to uint32_t, the first after its product with 1000 wrapped around.
unfoldable pub check_ping_timings : ℕ → ℕ → Result MonitorError (Unit {0})
check_ping_timings ping_interval_ms pong_timeout_ms =
    guard (not (leb ping_interval_ms pong_timeout_ms)) config_error

unfoldable pub check_timings : ℕ → ConnectorBase → Result MonitorError (Unit {0})
unfolding check_connection_initialization check_ping_timings
check_timings connection_check_interval_s c = do
  check_connection_initialization c
  check_ping_timings (connection_check_interval_s * 1000 % 2 ^ 32) (c.pong_timeout_ms % 2 ^ 32)

-- The handlers that go on with the loop.
abbrev pub is_retried : MonitorError → Bool
is_retried config_error = true
is_retried association_error = true
is_retried processing_error = true
is_retried e = false

-- What the try block throws.
abbrev pub thrown : Tick → Option MonitorError
thrown t = if not t.is_connected then t.connect_throws else t.ping_throws

abbrev pub stopped : ConnectorBase → ConnectorBase
stopped c = record c { is_monitoring = false }

-- The handlers: the rest of the loop, or its end with the exception recorded.
unfoldable pub caught :
    ConnectorBase → ConnectorBase × Bool → Option MonitorError → ConnectorBase × Bool
caught c rest none = rest
caught c rest (some e) =
    if is_retried e then rest else (stopped (record c { monitor_exception = some e }), true)

-- The loop, with whether it has ended after the given ticks. A stop is asked for by a write to
-- `must_stop_monitoring_`.
unfoldable pub monitor_loop : List Tick → ConnectorBase → ConnectorBase × Bool
monitor_loop [] c = if c.must_stop_monitoring then (stopped c, true) else (c, false)
monitor_loop (t ∷ ts) c =
    let woken = record c { must_stop_monitoring = c.must_stop_monitoring || t.stop_requested } in
    let rest = monitor_loop ts woken in
    if c.must_stop_monitoring
    then (stopped c, true)
    else if woken.must_stop_monitoring
    then (stopped woken, true)
    else caught woken rest (thrown t)

unfoldable pub start_monitor_task : List Tick → ConnectorBase → ConnectorBase × Bool
unfolding monitor_loop
start_monitor_task ticks c = monitor_loop ticks (record c { monitor_exception = none })

-- `startMonitoring` starts the task in a thread, which goes on as `start_monitor_task` does.
unfoldable pub start_monitoring : ℕ → ConnectorBase → Result MonitorError ConnectorBase
unfolding check_timings
start_monitoring connection_check_interval_s c = do
  check_timings connection_check_interval_s c
  ok (if not c.is_monitoring then record c { is_monitoring = true } else c)

abbrev pub rethrown : ConnectorBase → Option MonitorError
rethrown c = c.monitor_exception

-- `monitorConnection` runs the task itself: where it has ended, its exception is thrown again,
-- unless a stop was asked for. The result is the connector, whether the call is over, and what it
-- throws.
unfoldable pub monitored : ConnectorBase × Bool → (ConnectorBase × Bool) × Option MonitorError
monitored (after, has_ended) = (
  (after, has_ended),
  if has_ended && not after.must_stop_monitoring then rethrown after else none,
)

unfoldable pub monitor_connection :
    ℕ
    → List Tick
    → ConnectorBase
    → Result MonitorError ((ConnectorBase × Bool) × Option MonitorError)
unfolding check_timings start_monitor_task monitored
monitor_connection connection_check_interval_s ticks c = do
  check_timings connection_check_interval_s c
  ok (
      if not c.is_monitoring
      then monitored (start_monitor_task ticks (record c { is_monitoring = true }))
      else ((c, true), none))

-- `stopMonitorTaskAndWait`: the thread is in a tick, which throws or not, and joins behind it.
unfoldable pub stop_monitor_task_and_wait :
    Option MonitorError → ConnectorBase → ConnectorBase × Option MonitorError
unfolding caught
stop_monitor_task_and_wait last c =
    let asked = record c { must_stop_monitoring = true } in
    let (joined, has_ended) = caught asked (stopped asked, true) last in (joined, rethrown joined)

-- `stopMonitoring`, with the exception that leaves it.
unfoldable pub stop_monitoring :
    Option MonitorError → ConnectorBase → ConnectorBase × Option MonitorError
unfolding stop_monitor_task_and_wait
stop_monitoring last c =
    if not c.has_connection
    then (c, some not_init_error)
    else if c.is_monitoring
    then stop_monitor_task_and_wait last c
    else (c, rethrown c)
