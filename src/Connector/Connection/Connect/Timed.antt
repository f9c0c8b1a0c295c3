-- ===== src/Connector/Connection/Connect/Timed.antt =====
-- What the timings say of the state of a connection, whatever happens to it.
use Prim.Native.String.{String}
use cpp_pcp_client.Base.{
  Option, ◌==◌, leb, ◌+◌, ◌%◌, ◌^◌, Bool-cases, Option-cases, inl, inr, ℕ, Bool, true, false, ◌≡◌,
  refl, List, some, none,
}
use cpp_pcp_client.Connector.Durations.{ℤ}
use cpp_pcp_client.Connector.Timings.{ConnectionTimings, reset, set_open, set_closing, set_closed}
use cpp_pcp_client.Connector.Connection.{
  ConnectFailure, is_closed_state, ConnectionState, initialized, connecting, opened, closing,
  closed, Connection, make_connection, Event, closed_event, failed_event, ping_event, pong_event,
  pong_timeout_event, pre_tcp_event, post_tcp_event, open_event, message_event, close, on_close,
  on_fail, on_ping, on_pong, on_pong_timeout, on_pre_tcp_init, on_post_tcp_init, on_open,
  on_message, handle, fine, raised, connect_once, switch_ws_uri, get_ws_uri, clean_up,
}
use cpp_pcp_client.Connector.Connection.Connect.{Round, connect}
use cpp_pcp_client.Connector.Connection.Connect.Steps.{
  Step, handling, attempting, shutting, switching, pausing, Steps, start, after, connect-Steps,
  clean_up-Steps,
}

-- A connection that was not opened or closed yet, one that is open, one that this client closes,
-- and one that is closed, by the flags of its timings.
abbrev pub Shows : ConnectionState → ConnectionTimings → Type 0
Shows initialized t = (t.is_open ≡ false) × (t.is_closed ≡ false) × (t.is_failed ≡ false)
Shows connecting t = (t.is_open ≡ false) × (t.is_closed ≡ false) × (t.is_failed ≡ false)
Shows opened t = t.is_open ≡ true
Shows closing t = t.is_closing_started ≡ true
Shows closed t = t.is_closed ≡ true

abbrev pub IsTimed : Connection → Type 0
IsTimed c = Shows c.connection_state c.timings

closing-Shows :
    (s : ConnectionState) (t : ConnectionTimings) (now : ℕ)
    → Shows s t
    → Shows s (set_closing now t)
unfolding set_closing
closing-Shows initialized t now h = h
closing-Shows connecting t now h = h
closing-Shows opened t now h = h
closing-Shows closing t now h = refl
closing-Shows closed t now h = h

pre-Shows :
    (s : ConnectionState) (t : ConnectionTimings) (now : ℕ)
    → Shows s t
    → Shows s (record t { tcp_pre_init = now })
pre-Shows initialized t now h = h
pre-Shows connecting t now h = h
pre-Shows opened t now h = h
pre-Shows closing t now h = h
pre-Shows closed t now h = h

post-Shows :
    (s : ConnectionState) (t : ConnectionTimings) (now : ℕ)
    → Shows s t
    → Shows s (record t { tcp_post_init = now })
post-Shows initialized t now h = h
post-Shows connecting t now h = h
post-Shows opened t now h = h
post-Shows closing t now h = h
post-Shows closed t now h = h

close-IsTimed : (now : ℕ) (ec : Bool) (c : Connection) → IsTimed c → IsTimed (close now ec c).0
unfolding close set_closing
close-IsTimed now ec c h =
    let shows = closing-Shows c.connection_state c.timings now h in
    elim (Bool-cases (is_closed_state c.connection_state)) [
      | inl stop ↦ rw stop shows
      | inr go ↦ elim (Bool-cases ec) [
        | inl fails ↦ rw (go, fails) shows
        | inr works ↦ rw (go, works) refl
      ]
    ]

handle-IsTimed : (e : Event) (c : Connection) → IsTimed c → IsTimed (handle e c)
unfolding handle on_close on_fail on_ping on_pong on_pong_timeout on_pre_tcp_init on_post_tcp_init
    on_open on_message set_closed set_open
handle-IsTimed (closed_event now callback) c h = refl
handle-IsTimed (failed_event now callback) c h = refl
handle-IsTimed ping_event c h = h
handle-IsTimed pong_event c h = elim (Bool-cases (c.consecutive_pong_timeouts == 0)) [
  | inl no_timeouts ↦ rw no_timeouts h
  | inr counted ↦ rw counted h
]
handle-IsTimed (pong_timeout_event now ec) c h =
    let counted = record c {
      consecutive_pong_timeouts = (c.consecutive_pong_timeouts + 1) % 2 ^ 32;
    } in
    elim (Bool-cases (leb counted.pong_timeouts_before_retry counted.consecutive_pong_timeouts)) [
      | inl enough ↦ rw (handle, enough) (close-IsTimed now ec counted h)
      | inr few ↦ rw (handle, few) h
    ]
handle-IsTimed (pre_tcp_event now) c h = pre-Shows c.connection_state c.timings now h
handle-IsTimed (post_tcp_event now) c h = post-Shows c.connection_state c.timings now h
handle-IsTimed (open_event now none later ec) c h = refl
handle-IsTimed (open_event now (some fine) later ec) c h = refl
handle-IsTimed (open_event now (some raised) later ec) c h =
    let ready = record c { timings = set_open now c.timings; connection_state = opened } in
    close-IsTimed later ec ready refl
handle-IsTimed (message_event callback) c h = h

connect_once-IsTimed :
    (now : ℕ) (fails : Option ConnectFailure) (c : Connection)
    → IsTimed (connect_once now fails c).0
unfolding connect_once reset
connect_once-IsTimed now fails c =
    let begun = record c { connection_state = connecting; timings = reset now c.timings } in
    elim (Option-cases (get_ws_uri begun)) [
      | inl missing ↦ rw (connect_once, missing) (refl, refl, refl)
      | inr (uri, there) ↦ elim (Option-cases fails) [
        | inl going ↦ rw (connect_once, there, going) (refl, refl, refl)
        | inr (failure, failing) ↦ rw (connect_once, there, failing) (refl, refl, refl)
      ]
    ]

switch_ws_uri-IsTimed : (c : Connection) → IsTimed c → IsTimed (switch_ws_uri c).0
unfolding switch_ws_uri
switch_ws_uri-IsTimed c h = elim (Option-cases (get_ws_uri c)) [
  | inl missing ↦ rw (switch_ws_uri, missing) h
  | inr (uri, there) ↦ rw (switch_ws_uri, there) h
]

Step-IsTimed : {c d : Connection} → Step c d → IsTimed c → IsTimed d
Step-IsTimed (handling e c) h = handle-IsTimed e c h
Step-IsTimed (attempting now fails c) h = connect_once-IsTimed now fails c
Step-IsTimed (shutting now ec c) h = close-IsTimed now ec c h
Step-IsTimed (switching c) h = switch_ws_uri-IsTimed c h
Step-IsTimed (pausing backoff c) h = h

Steps-IsTimed : {c d : Connection} → Steps c d → IsTimed c → IsTimed d
Steps-IsTimed (start c) h = h
Steps-IsTimed (after s step) h = Step-IsTimed step (Steps-IsTimed s h)

-- A connection, by what happened to it since it was made.
pub data Lived : Connection → Type 0 where
  made : (uris : List String) (timeouts : ℕ) → Lived (make_connection uris timeouts)
  connected :
      {c : Connection} (max : ℤ) (rounds : List Round)
      → Lived c
      → Lived (connect max c rounds).connection
  shut : {c : Connection} (now : ℕ) (ec : Bool) → Lived c → Lived (close now ec c).0
  handled : {c : Connection} (e : Event) → Lived c → Lived (handle e c)
  cleaned :
      {c : Connection} (now : ℕ) (ec : Bool) (events : List Event) (later : ℕ) (later_ec : Bool)
      → Lived c
      → Lived (clean_up now ec events later later_ec c)

-- Whatever events, calls of `connect`, however far they run, calls of `close` and a `cleanUp` follow
-- each other on a new connection, its timings show its state: an open connection has the open flag,
-- one that this client closes has the flag of the closing handshake, a closed one has the closed
-- flag, and one that is new or connecting has neither the open flag nor the closed one nor the
-- failed one.
pub Lived-IsTimed : {c : Connection} → Lived c → IsTimed c
unfolding make_connection
Lived-IsTimed (made uris timeouts) = (refl, refl, refl)
Lived-IsTimed (connected {c = c} max rounds l) =
    Steps-IsTimed (connect-Steps max c rounds) (Lived-IsTimed l)
Lived-IsTimed (shut {c = c} now ec l) = close-IsTimed now ec c (Lived-IsTimed l)
Lived-IsTimed (handled {c = c} e l) = handle-IsTimed e c (Lived-IsTimed l)
Lived-IsTimed (cleaned {c = c} now ec events later later_ec l) =
    Steps-IsTimed (clean_up-Steps now ec events later later_ec c) (Lived-IsTimed l)
