-- ===== src/Connector/Timings/Laws.antt =====
-- What the timings report.
use cpp_pcp_client.Base.{ℕ, ◌+◌, ◌-◌, ◌*◌, ◌/◌, ◌^◌, ◌≤◌, ◌<◌, ◌≡◌, Bool, true, false, arith}
use cpp_pcp_client.Connector.Durations.{
  pos, minutes, ms, us, duration_cast-ordered, duration_cast-same,
}
use cpp_pcp_client.Connector.Timings.{
  Interval, hours_minutes, only_minutes, normalize_time_interval, ConnectionTimings, reset,
  set_open, set_closing, set_closed, get_tcp_interval, get_opening_handshake_interval,
  get_web_socket_interval, get_closing_handshake_interval, get_overall_connection_interval_min,
  get_overall_connection_interval_us, get_overall_duration_txt, microseconds, connection_to_string,
  time_to_failure, AssociationTimings, set_completed, set_session_closed, get_association_interval,
  get_overall_session_interval_ms,
}

-- The minutes that an interval's text stands for, and its place for the minutes.
unfoldable pub total_minutes : Interval → ℕ
total_minutes (hours_minutes h m) = h * 60 + m
total_minutes (only_minutes m) = m

unfoldable pub minute_place : Interval → ℕ
minute_place (hours_minutes h m) = m
minute_place (only_minutes m) = m

-- The text of a duration stands for that duration, and its minutes are below 60.
pub normalize_time_interval_lem :
    (d : ℕ)
    → (total_minutes (normalize_time_interval d) ≡ d)
      × (minute_place (normalize_time_interval d) < 60)
unfolding total_minutes minute_place normalize_time_interval
normalize_time_interval_lem d = (ground arith, ground arith)

-- For a connection that failed before it was open, the text reports 0 us to the failure, whatever
-- the instants of its start and of its failure.
pub failure_text :
    (now : ℕ) (t : ConnectionTimings)
    → t.is_open ≡ false
    → t.is_failed ≡ true
    → connection_to_string now t ≡ time_to_failure (microseconds (pos 0))
unfolding connection_to_string get_overall_duration_txt get_overall_connection_interval_min
    get_overall_connection_interval_us
failure_text now t shut failed = rw (shut, failed)

-- The timings of a connection that starts, opens and is closed by this client.
unfoldable pub finished :
    (start pre post opened closing closed : ℕ) → ConnectionTimings → ConnectionTimings
finished start pre post opened closing closed t =
    let begun = record (reset start t) { tcp_pre_init = pre; tcp_post_init = post } in
    set_closed closed false (set_closing closing (set_open opened begun))

-- If the instants of a connection that opens and is closed by this client are in order and less
-- than 2 ^ 31 us apart, every interval is the difference of its two instants cut to its unit, and
-- the overall one no longer depends on the clock.
pub finished-intervals :
    (start pre post opened closing closed now : ℕ) (t : ConnectionTimings)
    → start ≤ pre
    → pre ≤ post
    → post ≤ opened
    → opened ≤ closing
    → closing ≤ closed
    → (closed - start) / us < 2 ^ 31
    → let u = finished start pre post opened closing closed t in
      (get_tcp_interval u ≡ pos ((pre - start) / us))
      × (get_opening_handshake_interval u ≡ pos ((post - pre) / us))
      × (get_web_socket_interval u ≡ pos ((opened - start) / us))
      × (get_closing_handshake_interval u ≡ pos ((closed - closing) / us))
      × (get_overall_connection_interval_us now u ≡ pos ((closed - start) / us))
      × (get_overall_connection_interval_min now u ≡ pos ((closed - start) / minutes))
unfolding finished reset set_open set_closing set_closed get_tcp_interval
    get_opening_handshake_interval get_web_socket_interval get_closing_handshake_interval
    get_overall_connection_interval_us get_overall_connection_interval_min
finished-intervals start pre post opened closing closed now t a b c d e fits = (
  duration_cast-ordered us pre start a (omega arith),
  duration_cast-ordered us post pre b (omega arith),
  duration_cast-ordered us opened start (omega arith) (omega arith),
  duration_cast-ordered us closed closing e (omega arith),
  duration_cast-ordered us closed start (omega arith) fits,
  duration_cast-ordered minutes closed start (omega arith) (omega arith),
)

-- If the connection is closed before the association completes, the association is timed up to the
-- close and the session lasts 0 ms, if the close is less than 2 ^ 31 ms after the start.
pub closed_first-intervals :
    (completed closed now : ℕ) (success : Bool) (a : AssociationTimings)
    → a.start ≤ closed
    → (closed - a.start) / ms < 2 ^ 31
    → let late = set_completed completed success (set_session_closed closed a) in
      (get_association_interval late ≡ pos ((closed - a.start) / ms))
      × (get_overall_session_interval_ms now late ≡ pos 0)
unfolding set_completed set_session_closed get_association_interval get_overall_session_interval_ms
closed_first-intervals completed closed now success a p fits =
    (duration_cast-ordered ms closed a.start p fits, duration_cast-same ms closed (omega arith))

-- If the association completes before the connection is closed, the association is timed up to its
-- completion and the session from there to the close, if the instants are in order and less than
-- 2 ^ 31 ms apart.
pub completed_first-intervals :
    (completed closed now : ℕ) (success : Bool) (a : AssociationTimings)
    → a.closed ≡ false
    → a.start ≤ completed
    → completed ≤ closed
    → (closed - a.start) / ms < 2 ^ 31
    → let usual = set_session_closed closed (set_completed completed success a) in
      (get_association_interval usual ≡ pos ((completed - a.start) / ms))
      × (get_overall_session_interval_ms now usual ≡ pos ((closed - completed) / ms))
unfolding set_completed set_session_closed get_association_interval get_overall_session_interval_ms
completed_first-intervals completed closed now success a unclosed p q fits = (
  rw unclosed (duration_cast-ordered ms completed a.start p (omega arith)),
  rw unclosed (duration_cast-ordered ms closed completed q (omega arith)),
)
