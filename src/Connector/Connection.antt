-- ===== src/Connector/Connection.antt =====
-- The class of lib/inc/cpp-pcp-client/connector/connection.hpp and
-- lib/src/connector/connection.cc, without its configuration of websocketpp and TLS. What the
-- event loop's thread does is a list of events, each of which its handler runs at one instant; what
-- websocketpp answers to a call is an argument; size_t has 64 bits.
pub mod Events
pub mod Connect
pub mod Sending
pub mod Tls
pub mod Pongs
pub mod Brokers
use Prim.Native.String.{String}
use cpp_pcp_client.Base.{
  ℕ, suc, ◌+◌, ◌%◌, ◌^◌, Bool, true, false, not, ◌==◌, leb, if◌then◌else◌, List, [], ◌∷◌, length,
  Option, none, some,
}
use cpp_pcp_client.Connector.Timings.{
  ConnectionTimings, new_timings, reset, set_open, set_closing, set_closed,
}

pub data ConnectionState : Type 0 where
  initialized connecting opened closing closed : ConnectionState

-- What is thrown: the library's exceptions, with the number of attempts for a fatal one; the one of
-- websocketpp for a proxy that it does not take; and two faults of the program: a division by zero and a failed `assert`.
pub data ConnectionError : Type 0 where
  connection_processing_error : ConnectionError
  proxy_exception : ConnectionError
  connection_fatal_error : ℕ → ConnectionError
  division_by_zero : ConnectionError
  assertion_failed : ConnectionError

pub data Exit : Type 0 where
  returned : Exit
  threw : ConnectionError → Exit

-- What a callback does, where one is set.
pub data Called : Type 0 where
  fine : Called
  raised : Called

pub record Connection : Type 0 where
  pub broker_ws_uris : List String
  pub pong_timeouts_before_retry : ℕ
  pub timings : ConnectionTimings
  pub connection_state : ConnectionState
  pub connection_target_index : ℕ
  pub consecutive_pong_timeouts : ℕ
  pub connection_backoff_ms : ℕ

-- CONNECTION_BACKOFF_MS
abbrev pub backoff_ms : ℕ
backoff_ms = 2000

unfoldable pub make_connection : List String → ℕ → Connection
make_connection broker_ws_uris pong_timeouts_before_retry = record {
  broker_ws_uris = broker_ws_uris;
  pong_timeouts_before_retry = pong_timeouts_before_retry;
  timings = new_timings;
  connection_state = initialized;
  connection_target_index = 0;
  consecutive_pong_timeouts = 0;
  connection_backoff_ms = backoff_ms;
}

abbrev pub is_closed_state : ConnectionState → Bool
is_closed_state closed = true
is_closed_state _ = false

abbrev pub is_opened : ConnectionState → Bool
is_opened opened = true
is_opened _ = false

abbrev pub is_initialized : ConnectionState → Bool
is_initialized initialized = true
is_initialized _ = false

-- `close`, at an instant, given whether websocketpp reports an error.
unfoldable pub close : ℕ → Bool → Connection → Connection × Exit
close now ec c =
    let timed = record c { timings = set_closing now c.timings } in
    if is_closed_state timed.connection_state
    then (timed, returned)
    else if ec
    then (timed, threw connection_processing_error)
    else (record timed { connection_state = closing }, returned)

-- `tryClose` catches what `close` throws.
unfoldable pub try_close : ℕ → Bool → Connection → Connection
unfolding close
try_close now ec c = (close now ec c).0

abbrev pub element : List String → ℕ → Option String
element [] i = none
element (u ∷ us) ℕ.zero = some u
element (u ∷ us) (suc i) = element us i

-- `broker_ws_uris_[c_t % broker_ws_uris_.size()]`, and nothing where the size is 0.
unfoldable pub get_ws_uri : Connection → Option String
get_ws_uri c =
    if length c.broker_ws_uris == 0
    then none
    else element c.broker_ws_uris (c.connection_target_index % length c.broker_ws_uris)

unfoldable pub switch_ws_uri : Connection → Connection × Exit
switch_ws_uri c = elim (get_ws_uri c) [
  | none ↦ (c, threw division_by_zero)
  | some old ↦
      (record c { connection_target_index = (c.connection_target_index + 1) % 2 ^ 64 }, returned)
]

-- How the calls of `connect_` fail: `get_connection` reports an error or `connect` throws one, or
-- `set_proxy`, which stands outside the try block and is called where there is a proxy, throws one.
pub data ConnectFailure : Type 0 where
  refused bad_proxy : ConnectFailure

abbrev pub thrown_for : ConnectFailure → ConnectionError
thrown_for refused = connection_processing_error
thrown_for bad_proxy = proxy_exception

-- `connect_`, given how its calls fail, if they do.
unfoldable pub connect_once : ℕ → Option ConnectFailure → Connection → Connection × Exit
connect_once now fails c =
    let begun = record c { connection_state = connecting; timings = reset now c.timings } in
    elim (get_ws_uri begun) [
      | none ↦ (begun, threw division_by_zero)
      | some uri ↦ elim fails [
        | none ↦ (begun, returned)
        | some failure ↦ (begun, threw (thrown_for failure))
      ]
    ]

unfoldable pub on_close : ℕ → Option Called → Connection → Connection
on_close now callback c = record c {
  timings = set_closed now false c.timings;
  connection_state = closed;
}

unfoldable pub on_fail : ℕ → Option Called → Connection → Connection
on_fail now callback c = record c {
  timings = set_closed now true c.timings;
  connection_state = closed;
}

unfoldable pub on_ping : Connection → Connection × Bool
on_ping c = (c, true)

unfoldable pub on_pong : Connection → Connection
on_pong c =
    if not (c.consecutive_pong_timeouts == 0) then record c { consecutive_pong_timeouts = 0 } else c

unfoldable pub on_pong_timeout : ℕ → Bool → Connection → Connection × Exit
unfolding close
on_pong_timeout now ec c =
    let counted = record c {
      consecutive_pong_timeouts = (c.consecutive_pong_timeouts + 1) % 2 ^ 32;
    } in
    if leb counted.pong_timeouts_before_retry counted.consecutive_pong_timeouts
    then close now ec counted
    else (counted, returned)

unfoldable pub on_pre_tcp_init : ℕ → Connection → Connection
on_pre_tcp_init now c = record c { timings = record c.timings { tcp_pre_init = now } }

unfoldable pub on_post_tcp_init : ℕ → Connection → Connection
on_post_tcp_init now c = record c { timings = record c.timings { tcp_post_init = now } }

-- A callback that throws closes the connection, at a later instant.
unfoldable pub on_open : ℕ → Option Called → ℕ → Bool → Connection → Connection × Exit
unfolding close
on_open now callback later ec c =
    let ready = record c { timings = set_open now c.timings; connection_state = opened } in
    elim callback [
      | none ↦ (ready, returned)
      | some fine ↦ (ready, returned)
      | some raised ↦ close later ec ready
    ]

-- A callback's exception stops here.
unfoldable pub on_message : Option Called → Connection → Connection
on_message callback c = c

pub data Event : Type 0 where
  closed_event : ℕ → Option Called → Event
  failed_event : ℕ → Option Called → Event
  ping_event : Event
  pong_event : Event
  pong_timeout_event : ℕ → Bool → Event
  pre_tcp_event : ℕ → Event
  post_tcp_event : ℕ → Event
  open_event : ℕ → Option Called → ℕ → Bool → Event
  message_event : Option Called → Event

-- The handler that the constructor registers for an event. What it throws goes to websocketpp.
unfoldable pub handle : Event → Connection → Connection
unfolding on_close on_fail on_ping on_pong on_pong_timeout on_pre_tcp_init on_post_tcp_init on_open
    on_message close
handle (closed_event now callback) c = on_close now callback c
handle (failed_event now callback) c = on_fail now callback c
handle ping_event c = (on_ping c).0
handle pong_event c = on_pong c
handle (pong_timeout_event now ec) c = (on_pong_timeout now ec c).0
handle (pre_tcp_event now) c = on_pre_tcp_init now c
handle (post_tcp_event now) c = on_post_tcp_init now c
handle (open_event now callback later ec) c = (on_open now callback later ec c).0
handle (message_event callback) c = on_message callback c

unfoldable pub handle_all : List Event → Connection → Connection
handle_all [] c = c
handle_all (e ∷ es) c = handle_all es (handle e c)

-- `cleanUp` before the event loop is stopped: what happens while it waits is `events`, and `again`
-- is the instant of its second `close`.
unfoldable pub clean_up : ℕ → Bool → List Event → ℕ → Bool → Connection → Connection
unfolding try_close handle_all
clean_up now ec events again again_ec c = elim c.connection_state [
  | closed ↦ c
  | initialized ↦ c
  | opened ↦ handle_all events (try_close now ec c)
  | closing ↦ handle_all events c
  | connecting ↦
      let tried = try_close now ec c in
      if is_closed_state tried.connection_state
      then tried
      else try_close again again_ec (handle_all events tried)
]
