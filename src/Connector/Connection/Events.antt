-- ===== src/Connector/Connection/Events.antt =====
-- What no event changes.
use cpp_pcp_client.Base.{ℕ, ◌≡◌, refl, ◌∙◌, Bool, false, List, [], ◌∷◌, none, some, arith}
use cpp_pcp_client.Connector.Timings.{set_open}
use cpp_pcp_client.Connector.Connection.{
  opened, is_initialized, Connection, fine, raised, Event, closed_event, failed_event, ping_event,
  pong_event, pong_timeout_event, pre_tcp_event, post_tcp_event, open_event, message_event, close,
  on_close, on_fail, on_ping, on_pong, on_pong_timeout, on_pre_tcp_init, on_post_tcp_init, on_open,
  on_message, handle, handle_all,
}

-- From the first connection to the second, the brokers and the backoff are the same, and the state
-- `initialized` is not entered.
abbrev pub Keeps : Connection → Connection → Type 0
Keeps c d =
    (d.broker_ws_uris ≡ c.broker_ws_uris)
    × (d.connection_backoff_ms ≡ c.connection_backoff_ms)
    × (is_initialized c.connection_state ≡ false → is_initialized d.connection_state ≡ false)

close-Keeps : (now : ℕ) (ec : Bool) (c : Connection) → Keeps c (close now ec c).0
unfolding close
close-Keeps now ec c = (ground arith, ground arith, λ h. ground arith)

pub handle-Keeps : (e : Event) (c : Connection) → Keeps c (handle e c)
unfolding handle on_close on_fail on_ping on_pong on_pong_timeout on_pre_tcp_init on_post_tcp_init
    on_open on_message close
handle-Keeps (closed_event now callback) c = (refl, refl, λ h. refl)
handle-Keeps (failed_event now callback) c = (refl, refl, λ h. refl)
handle-Keeps ping_event c = (refl, refl, λ h. h)
handle-Keeps pong_event c = (ground arith, ground arith, λ h. ground arith)
handle-Keeps (pong_timeout_event now ec) c = (ground arith, ground arith, λ h. ground arith)
handle-Keeps (pre_tcp_event now) c = (refl, refl, λ h. h)
handle-Keeps (post_tcp_event now) c = (refl, refl, λ h. h)
handle-Keeps (open_event now none later ec) c = (refl, refl, λ h. refl)
handle-Keeps (open_event now (some fine) later ec) c = (refl, refl, λ h. refl)
handle-Keeps (open_event now (some raised) later ec) c =
    let ready = record c { timings = set_open now c.timings; connection_state = opened } in
    let shut = close-Keeps later ec ready in (shut.0, shut.1, λ h. shut.2 refl)
handle-Keeps (message_event callback) c = (refl, refl, λ h. h)

pub handle_all-Keeps : (es : List Event) (c : Connection) → Keeps c (handle_all es c)
unfolding handle_all
handle_all-Keeps [] c = (refl, refl, λ h. h)
handle_all-Keeps (e ∷ es) c =
    let first = handle-Keeps e c in
    let rest = handle_all-Keeps es (handle e c) in
    (rest.0 ∙ first.0, rest.1 ∙ first.1, λ h. rest.2 (first.2 h))
