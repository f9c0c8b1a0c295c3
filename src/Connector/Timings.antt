-- ===== src/Connector/Timings.antt =====
-- The structures of lib/inc/cpp-pcp-client/connector/timings.hpp and
-- lib/src/connector/timings.cc. An instant is a number of nanoseconds since the epoch; a function
-- that reads the clock takes the instant it reads. A text is the message and its arguments.
pub mod Laws
use cpp_pcp_client.Base.{
  ℕ, suc, zero, ◌-◌, ◌/◌, ◌%◌, ◌^◌, Bool, true, false, not, ◌||◌, ltb, if◌then◌else◌,
}
use cpp_pcp_client.Connector.Durations.{ℤ, pos, negsuc, minutes, ms, us, duration_cast}

pub data Interval : Type 0 where
  hours_minutes : ℕ → ℕ → Interval
  only_minutes : ℕ → Interval

unfoldable pub normalize_time_interval : ℕ → Interval
normalize_time_interval duration_min =
    let hours = duration_min / 60 in
    let rest = duration_min % 60 in
    if ltb 0 hours then hours_minutes hours rest else only_minutes rest

-- The conversion of an `int` to uint32_t.
abbrev pub to_uint32 : ℤ → ℕ
to_uint32 (pos n) = n % 2 ^ 32
to_uint32 (negsuc n) = (2 ^ 32 - suc n % 2 ^ 32) % 2 ^ 32

pub record ConnectionTimings : Type 0 where
  pub start : ℕ
  pub tcp_pre_init : ℕ
  pub tcp_post_init : ℕ
  pub open_at : ℕ
  pub closing_handshake : ℕ
  pub close_at : ℕ
  pub is_open : Bool
  pub is_closing_started : Bool
  pub is_failed : Bool
  pub is_closed : Bool

abbrev pub new_timings : ConnectionTimings
new_timings = record {
  start = 0;
  tcp_pre_init = 0;
  tcp_post_init = 0;
  open_at = 0;
  closing_handshake = 0;
  close_at = 0;
  is_open = false;
  is_closing_started = false;
  is_failed = false;
  is_closed = false;
}

unfoldable pub reset : ℕ → ConnectionTimings → ConnectionTimings
reset now t = record {
  start = now;
  tcp_pre_init = 0;
  tcp_post_init = 0;
  open_at = 0;
  closing_handshake = 0;
  close_at = 0;
  is_open = false;
  is_closing_started = false;
  is_failed = false;
  is_closed = false;
}

unfoldable pub set_open : ℕ → ConnectionTimings → ConnectionTimings
set_open now t = record t { open_at = now; is_open = true }

unfoldable pub set_closing : ℕ → ConnectionTimings → ConnectionTimings
set_closing now t = record t { closing_handshake = now; is_closing_started = true }

unfoldable pub set_closed : ℕ → Bool → ConnectionTimings → ConnectionTimings
set_closed now on_fail_event t = record t {
  close_at = now;
  is_closed = true;
  is_failed = on_fail_event;
}

unfoldable pub get_tcp_interval : ConnectionTimings → ℤ
get_tcp_interval t = duration_cast us t.tcp_pre_init t.start

unfoldable pub get_opening_handshake_interval : ConnectionTimings → ℤ
get_opening_handshake_interval t =
    if not t.is_open then pos 0 else duration_cast us t.tcp_post_init t.tcp_pre_init

unfoldable pub get_web_socket_interval : ConnectionTimings → ℤ
get_web_socket_interval t = if not t.is_open then pos 0 else duration_cast us t.open_at t.start

unfoldable pub get_closing_handshake_interval : ConnectionTimings → ℤ
get_closing_handshake_interval t =
    if not t.is_open || not t.is_closing_started || not t.is_closed
    then pos 0
    else duration_cast us t.close_at t.closing_handshake

unfoldable pub get_overall_connection_interval_min : ℕ → ConnectionTimings → ℤ
get_overall_connection_interval_min now t =
    if not t.is_open
    then pos 0
    else if not t.is_closed
    then duration_cast minutes now t.start
    else duration_cast minutes t.close_at t.start

unfoldable pub get_overall_connection_interval_us : ℕ → ConnectionTimings → ℤ
get_overall_connection_interval_us now t =
    if not t.is_open
    then pos 0
    else if t.is_closed
    then duration_cast us t.close_at t.start
    else duration_cast us now t.start

pub data DurationTxt : Type 0 where
  normalized : Interval → DurationTxt
  microseconds : ℤ → DurationTxt

abbrev pub is_nonzero : ℤ → Bool
is_nonzero (pos zero) = false
is_nonzero _ = true

unfoldable pub get_overall_duration_txt : ℕ → ConnectionTimings → DurationTxt
get_overall_duration_txt now t =
    let duration_min = get_overall_connection_interval_min now t in
    if is_nonzero duration_min
    then normalized (normalize_time_interval (to_uint32 duration_min))
    else microseconds (get_overall_connection_interval_us now t)

pub data ConnectionTxt : Type 0 where
  connection_timings : ℤ → ℤ → ℤ → ConnectionTxt
  time_to_failure : DurationTxt → ConnectionTxt
  not_connected_yet : ConnectionTxt

unfoldable pub connection_to_string : ℕ → ConnectionTimings → ConnectionTxt
connection_to_string now t =
    if t.is_open
    then connection_timings (get_tcp_interval t) (get_opening_handshake_interval t)
        (get_web_socket_interval t)
    else if t.is_failed
    then time_to_failure (get_overall_duration_txt now t)
    else not_connected_yet

pub record AssociationTimings : Type 0 where
  pub start : ℕ
  pub association : ℕ
  pub close_at : ℕ
  pub completed : Bool
  pub success : Bool
  pub closed : Bool

unfoldable pub reset_association : ℕ → AssociationTimings → AssociationTimings
reset_association now a = record {
  start = now;
  association = 0;
  close_at = 0;
  completed = false;
  success = false;
  closed = false;
}

unfoldable pub set_completed : ℕ → Bool → AssociationTimings → AssociationTimings
set_completed now success a = record a {
  association = if a.closed then a.close_at else now;
  completed = true;
  success = success;
}

unfoldable pub set_session_closed : ℕ → AssociationTimings → AssociationTimings
set_session_closed now a = record a { close_at = now; closed = true }

unfoldable pub get_association_interval : AssociationTimings → ℤ
get_association_interval a =
    if not a.completed then pos 0 else duration_cast ms a.association a.start

unfoldable pub get_overall_session_interval_min : ℕ → AssociationTimings → ℤ
get_overall_session_interval_min now a =
    if not a.completed
    then pos 0
    else if a.closed
    then duration_cast minutes a.close_at a.association
    else duration_cast minutes now a.association

unfoldable pub get_overall_session_interval_ms : ℕ → AssociationTimings → ℤ
get_overall_session_interval_ms now a =
    if not a.completed
    then pos 0
    else if a.closed
    then duration_cast ms a.close_at a.association
    else duration_cast ms now a.association

pub data AssociationTxt : Type 0 where
  not_associated_yet : AssociationTxt
  completed_closed : ℤ → Interval → AssociationTxt
  completed_current : ℤ → Interval → AssociationTxt
  completed_only : ℤ → AssociationTxt
  association_failed : ℤ → AssociationTxt

unfoldable pub association_to_string : ℕ → AssociationTimings → Bool → AssociationTxt
association_to_string now a include_completion =
    let interval = get_association_interval a in
    let session = normalize_time_interval (to_uint32 (get_overall_session_interval_min now a)) in
    if not a.completed
    then not_associated_yet
    else if a.success
    then (if a.closed
        then completed_closed interval session
        else if include_completion
        then completed_current interval session
        else completed_only interval)
    else association_failed interval
