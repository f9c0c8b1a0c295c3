-- ===== src/Connector/Monitor/Tests.antt =====
-- Runs of the monitoring task.
use cpp_pcp_client.Base.{◌≡◌, refl, true, false, [], ◌∷◌, ◌++◌, none, some, ok}
use cpp_pcp_client.Connector.Monitor.{
  ConnectorBase, Tick, config_error, association_response_failure, check_timings, monitor_loop,
  start_monitor_task, start_monitoring, stop_monitoring, stop_monitor_task_and_wait, caught,
  check_connection_initialization, check_ping_timings,
}
use cpp_pcp_client.Connector.Monitor.Laws.{config, refused, monitor_loop-ends, restart-ends}

abbrev connected : ConnectorBase
connected = record {
  has_connection = true;
  pong_timeout_ms = 5000;
  is_monitoring = true;
  must_stop_monitoring = false;
  monitor_exception = none;
}

-- A ping, an attempt that fails for now, and one that fails for good.
abbrev pinged : Tick
pinged = record {
  stop_requested = false;
  is_connected = true;
  connect_throws = none;
  ping_throws = none;
}

abbrev failing : Tick
failing = record pinged { is_connected = false; connect_throws = some config_error }

abbrev rejected : Tick
rejected = record pinged {
  is_connected = false;
  connect_throws = some association_response_failure;
}

monitor_loop-ends_example :
    (monitor_loop (pinged ∷ failing ∷ []) connected ≡ (connected, false))
    × (monitor_loop ((pinged ∷ failing ∷ []) ++ rejected ∷ pinged ∷ []) connected ≡ (
      record connected {
        is_monitoring = false;
        monitor_exception = some association_response_failure;
      },
      true,
    ))
monitor_loop-ends_example =
    monitor_loop-ends (pinged ∷ failing ∷ []) (pinged ∷ []) rejected association_response_failure
      connected refl ((refl, tt), ((refl, config), tt)) refl refl refused

abbrev restarted : ConnectorBase
restarted = record connected { must_stop_monitoring = true }

restarts : start_monitoring 15 (stop_monitoring none connected).0 ≡ ok restarted
unfolding start_monitoring stop_monitoring stop_monitor_task_and_wait caught check_timings
    check_connection_initialization check_ping_timings
restarts = refl

restart-ends_example :
    start_monitor_task (pinged ∷ []) restarted
    ≡ (record restarted { is_monitoring = false; monitor_exception = none }, true)
restart-ends_example = restart-ends 15 none (pinged ∷ []) connected restarted refl refl restarts
