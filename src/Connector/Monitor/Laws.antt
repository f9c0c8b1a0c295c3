-- ===== src/Connector/Monitor/Laws.antt =====
-- When the monitoring task ends.
use cpp_pcp_client.Base.{
  Option-cases, ℕ, ◌*◌, ◌%◌, ◌^◌, ◌<◌, ◌≡◌, ◌∙◌, ◌↔◌, true, false, List, [], ◌∷◌, ◌++◌, All,
  bind-eq-ok, ok-injective, ap, sym, Option, none, some, ok, inl, inr, arith, Bool-cases, refl,
  if◌then◌else◌,
}
use cpp_pcp_client.Connector.Monitor.{
  MonitorError, config_error, association_error, processing_error, association_response_failure,
  fatal_error, not_init_error, other_error, ConnectorBase, Tick, check_connection_initialization,
  check_ping_timings, check_timings, is_retried, thrown, stopped, monitor_loop, start_monitor_task,
  caught, start_monitoring, stop_monitor_task_and_wait, stop_monitoring,
}

-- The exceptions that the task logs and goes on after.
pub data IsTransient : MonitorError → Type 0 where
  config : IsTransient config_error
  association : IsTransient association_error
  processing : IsTransient processing_error

-- The exceptions that end the task.
pub data IsFinal : MonitorError → Type 0 where
  refused : IsFinal association_response_failure
  exhausted : (attempts : ℕ) → IsFinal (fatal_error attempts)
  not_init : IsFinal not_init_error
  unknown : IsFinal other_error

-- `ping` or, without a connection, `connect` throws nothing or a transient exception.
abbrev pub IsFine : Option MonitorError → Type 0
IsFine none = Unit
IsFine (some e) = IsTransient e

abbrev pub attempted_by : Tick → Option MonitorError
attempted_by t = if t.is_connected then t.ping_throws else t.connect_throws

-- No stop is asked for, and nothing or a transient exception is thrown.
abbrev pub IsHarmless : Tick → Type 0
IsHarmless t = (t.stop_requested ≡ false) × IsFine (attempted_by t)

transient-retried : {e : MonitorError} → IsTransient e → is_retried e ≡ true
transient-retried config = refl
transient-retried association = refl
transient-retried processing = refl

final-not_retried : {e : MonitorError} → IsFinal e → is_retried e ≡ false
final-not_retried refused = refl
final-not_retried (exhausted attempts) = refl
final-not_retried not_init = refl
final-not_retried unknown = refl

thrown-attempted : (t : Tick) → thrown t ≡ attempted_by t
thrown-attempted t = elim (Bool-cases t.is_connected) [
  | inl held ↦ rw held refl
  | inr lost ↦ rw lost refl
]

harmless_step :
    (t : Tick) (ts : List Tick) (c : ConnectorBase)
    → c.must_stop_monitoring ≡ false
    → IsHarmless t
    → monitor_loop (t ∷ ts) c ≡ monitor_loop ts c
unfolding monitor_loop caught
harmless_step t ts c going (no_stop, fine) = elim (Option-cases (attempted_by t)) [
  | inl nothing ↦ rw (monitor_loop, going, no_stop, thrown-attempted t, nothing)
  | inr (e, some_e) ↦
      let transient : IsTransient e = rw some_e at fine in
      rw (monitor_loop, going, no_stop, thrown-attempted t, some_e, transient-retried transient)
]

final_step :
    (t : Tick) (ts : List Tick) (e : MonitorError) (c : ConnectorBase)
    → c.must_stop_monitoring ≡ false
    → t.stop_requested ≡ false
    → attempted_by t ≡ some e
    → IsFinal e
    → monitor_loop (t ∷ ts) c
      ≡ (record c { is_monitoring = false; monitor_exception = some e }, true)
unfolding monitor_loop caught
final_step t ts e c going no_stop throws final =
    rw (monitor_loop, going, no_stop, thrown-attempted t, throws, final-not_retried final)

-- Through any ticks without a stop, in which `ping`, or `connect` where the connection is not open,
-- throws nothing but connection_config_error, connection_association_error or
-- connection_processing_error, the task goes on with its state unchanged; and the first
-- connection_association_response_failure, connection_fatal_error or other exception behind them
-- ends it, recorded, with the connector no longer monitoring.
pub monitor_loop-ends :
    (ts us : List Tick) (t : Tick) (e : MonitorError) (c : ConnectorBase)
    → c.must_stop_monitoring ≡ false
    → All IsHarmless ts
    → t.stop_requested ≡ false
    → attempted_by t ≡ some e
    → IsFinal e
    → (monitor_loop ts c ≡ (c, false))
      × (monitor_loop (ts ++ t ∷ us) c
          ≡ (record c { is_monitoring = false; monitor_exception = some e }, true))
unfolding monitor_loop
monitor_loop-ends [] us t e c going harmless no_stop throws final =
    (rw (monitor_loop, going), final_step t us e c going no_stop throws final)
monitor_loop-ends (s ∷ ts) us t e c going harmless no_stop throws final =
    let (on, ends) = monitor_loop-ends ts us t e c going harmless.1 no_stop throws final in
    (
      harmless_step s ts c going harmless.0 ∙ on,
      harmless_step s (ts ++ t ∷ us) c going harmless.0 ∙ ends,
    )

stopped_loop :
    (ticks : List Tick) (c : ConnectorBase)
    → c.must_stop_monitoring ≡ true
    → monitor_loop ticks c ≡ (stopped c, true)
unfolding monitor_loop
stopped_loop [] c stop = rw (monitor_loop, stop)
stopped_loop (t ∷ ts) c stop = rw (monitor_loop, stop)

stop_monitoring-asks :
    (last : Option MonitorError) (c : ConnectorBase)
    → c.has_connection ≡ true
    → c.is_monitoring ≡ true
    → (stop_monitoring last c).0.must_stop_monitoring ≡ true
unfolding stop_monitoring stop_monitor_task_and_wait caught
stop_monitoring-asks none c connected monitoring = rw (connected, monitoring)
stop_monitoring-asks (some e) c connected monitoring = elim (Bool-cases (is_retried e)) [
  | inl again ↦ rw (connected, monitoring, again)
  | inr fatal ↦ rw (connected, monitoring, fatal)
]

start_monitoring-keeps :
    (interval : ℕ) (b d : ConnectorBase)
    → start_monitoring interval b ≡ ok d
    → d.must_stop_monitoring ≡ b.must_stop_monitoring
unfolding start_monitoring
start_monitoring-keeps interval b d started =
    let (_, checked, made) = bind-eq-ok (check_timings interval b) _ started in
    elim (Bool-cases b.is_monitoring) [
      | inl already ↦ ap (λ x. x.must_stop_monitoring) (sym (ok-injective made)) ∙ rw already
      | inr idle ↦ ap (λ x. x.must_stop_monitoring) (sym (ok-injective made)) ∙ rw idle
    ]

-- If `startMonitoring` succeeds after `stopMonitoring` ended the task, the task that it starts
-- ends at once, whatever the ticks are, and without an exception.
pub restart-ends :
    (interval : ℕ) (last : Option MonitorError) (ticks : List Tick) (c d : ConnectorBase)
    → c.has_connection ≡ true
    → c.is_monitoring ≡ true
    → start_monitoring interval (stop_monitoring last c).0 ≡ ok d
    → start_monitor_task ticks d
      ≡ (record d { is_monitoring = false; monitor_exception = none }, true)
unfolding start_monitor_task
restart-ends interval last ticks c d connected monitoring started =
    let stop : d.must_stop_monitoring ≡ true =
      start_monitoring-keeps interval (stop_monitoring last c).0 d started
      ∙ stop_monitoring-asks last c connected monitoring in
    stopped_loop ticks (record d { monitor_exception = none }) stop

-- For an interval whose milliseconds fit in a uint32_t and such a timeout, the check accepts
-- exactly the intervals that are longer than the timeout.
pub check_timings_iff :
    (interval : ℕ) (c : ConnectorBase)
    → c.has_connection ≡ true
    → interval * 1000 < 2 ^ 32
    → c.pong_timeout_ms < 2 ^ 32
    → (check_timings interval c ≡ ok tt) ↔ (c.pong_timeout_ms < interval * 1000)
unfolding check_timings check_connection_initialization check_ping_timings
check_timings_iff interval c connected fits small =
    let whole : interval * 1000 % 2 ^ 32 ≡ interval * 1000 = omega arith in
    let timeout : c.pong_timeout_ms % 2 ^ 32 ≡ c.pong_timeout_ms = omega arith in
    rw (connected, whole, timeout) (ground arith)
