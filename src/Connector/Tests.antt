-- ===== src/Connector/Tests.antt =====
-- Runs of the timings and of the connection.
use Prim.Native.String.{String}
use cpp_pcp_client.Base.{
  none, ◌-◌, ◌/◌, ◌≡◌, ◌⊎◌, refl, inl, true, false, List, [], ◌∷◌, some, if◌then◌else◌, leb,
  replicate, arith,
}
use cpp_pcp_client.Connector.Durations.{pos, negsuc, ms}
use cpp_pcp_client.Connector.Timings.{
  ConnectionTimings, new_timings, connection_to_string, time_to_failure, microseconds,
  AssociationTimings, set_completed, set_session_closed, get_association_interval,
  get_overall_session_interval_ms,
}
use cpp_pcp_client.Connector.Timings.Laws.{failure_text, completed_first-intervals}
use cpp_pcp_client.Connector.Connection.{
  refused, Connection, make_connection, opened, closing, closed, fine, open_event, pong_event,
  handle_all, backoff_ms, connection_fatal_error, threw, element, get_ws_uri, connect_once, close,
}
use cpp_pcp_client.Connector.Connection.Pongs.{timeouts, timeouts-closing}
use cpp_pcp_client.Connector.Connection.Brokers.{switches, switches-visit}
use cpp_pcp_client.Connector.Connection.Connect.{Round, connect, exited, min_interval_ms}
use cpp_pcp_client.Connector.Connection.Connect.Outcome.{
  IsAttempted, IsExhausted, IsPaced, connect-IsPaced, connect-ends,
}
use cpp_pcp_client.Connector.Connection.Connect.Stuck.{connect-stuck}
use cpp_pcp_client.Connector.Connection.Connect.Timed.{
  IsTimed, made, connected, shut, Lived-IsTimed,
}

-- A connection that starts at 5 s and fails at 65 s.
abbrev failed : ConnectionTimings
failed = record new_timings {
  start = 5000000000;
  close_at = 65000000000;
  is_closed = true;
  is_failed = true;
}

failure_text_example :
    connection_to_string 70000000000 failed ≡ time_to_failure (microseconds (pos 0))
failure_text_example = failure_text 70000000000 failed refl refl

abbrev session : AssociationTimings
session = record {
  start = 1000000;
  association = 0;
  close_at = 0;
  completed = false;
  success = false;
  closed = false;
}

completed_first-intervals_example :
    let usual = set_session_closed 9000000 (set_completed 4000000 true session) in
    (get_association_interval usual ≡ pos ((4000000 - 1000000) / ms))
    × (get_overall_session_interval_ms 0 usual ≡ pos ((9000000 - 4000000) / ms))
completed_first-intervals_example =
    completed_first-intervals 4000000 9000000 0 true session refl (omega arith) (omega arith)
      (omega arith)

abbrev brokers : List String
brokers = "wss://one:8142/pcp" ∷ "wss://two:8142/pcp" ∷ []

abbrev client : Connection
client = record {
  broker_ws_uris = brokers;
  pong_timeouts_before_retry = 3;
  timings = new_timings;
  connection_state = closed;
  connection_target_index = 0;
  consecutive_pong_timeouts = 0;
  connection_backoff_ms = 2000;
}

-- A round in which nothing answers, and one in which the connection opens.
abbrev silent : Round
silent = record {
  before = [];
  asleep = [];
  waiting = [];
  now = 7;
  fails = none;
  sleep_jitter = negsuc 99;
  backoff_jitter = pos 500;
}

abbrev opening : Round
opening = record silent { waiting = open_event 9 (some fine) 0 false ∷ [] }

abbrev rounds : List Round
rounds = silent ∷ opening ∷ silent ∷ []

connect-ends_example :
    let run = connect (pos 3) client rounds in IsAttempted run ⊎ IsExhausted 3 run
connect-ends_example =
    connect-ends 2 client rounds refl (inl refl)
      ((omega arith, omega arith), ((omega arith, omega arith), ((omega arith, omega arith), tt)))
      (omega arith)

connect-IsPaced_example : IsPaced (connect (pos 0) client rounds)
connect-IsPaced_example =
    connect-IsPaced (pos 0) client rounds refl (inl refl)
      ((omega arith, omega arith), ((omega arith, omega arith), ((omega arith, omega arith), tt)))

Lived-IsTimed_example :
    IsTimed (close 99 false (connect (pos 2) (make_connection brokers 3) rounds).connection).0
Lived-IsTimed_example = Lived-IsTimed (shut 99 false (connected (pos 2) rounds (made brokers 3)))

abbrev left : Connection
left = (connect_once 5 (some refused) client).0

connect-stuck_example : connect (pos 2) left (silent ∷ silent ∷ []) ≡ record {
  connection = record left { connection_backoff_ms = backoff_ms };
  end = exited (threw (connection_fatal_error 2));
  sleeps = replicate 2 (pos min_interval_ms);
}
connect-stuck_example =
    connect-stuck 1 5 refused client left (silent ∷ silent ∷ []) refl
      ((refl, refl), ((refl, refl), tt)) (omega arith)

timeouts-closing_example :
    (handle_all
      (pong_event ∷ timeouts (1 ∷ 2 ∷ 3 ∷ []))
      (record client { connection_state = opened })).connection_state
    ≡ (if leb 3 3 then closing else opened)
timeouts-closing_example =
    timeouts-closing (record client { connection_state = opened }) (1 ∷ 2 ∷ 3 ∷ []) refl
      (omega arith) (omega arith)

switches-visit_example :
    (get_ws_uri (switches 1 (make_connection brokers 3)) ≡ element brokers 1)
    × (get_ws_uri (switches 2 (make_connection brokers 3)) ≡ get_ws_uri (make_connection brokers 3))
switches-visit_example = switches-visit brokers 3 1 (omega arith) (omega arith)
