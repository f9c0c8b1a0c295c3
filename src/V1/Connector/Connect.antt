-- ===== src/V1/Connector/Connect.antt =====
-- `Connector::connect`, `associateSession` and `closeAssociationTimings` of
-- lib/src/connector/v1/connector.cc. The thread of the event loop is given by lists: what it does to
-- the connection, in rounds, and to the session, in events. While `connect` holds the lock of the
-- session, the callback for the open connection waits for it, and with it the event loop.
pub mod Associates
pub mod Outcome
mod Tests
use cpp_pcp_client.Base.{
  ℕ, Bool, false, not, List, [], ◌∷◌, Option, none, some, if◌then◌else◌, Result, ok, err, ◌&&◌,
  ◌>>=◌, ◌>>◌,
}
use cpp_pcp_client.Validator.Valijson.{Valijson}
use cpp_pcp_client.ParsedChunks.{JsonContainer, ParsedChunks}
use cpp_pcp_client.JsonWriter.{JsonWriter}
use cpp_pcp_client.Connector.Durations.{ℤ}
use cpp_pcp_client.Connector.Timings.{AssociationTimings, set_session_closed, set_completed}
use cpp_pcp_client.Connector.Monitor.{
  MonitorError, config_error, association_error, association_response_failure, converted,
}
use cpp_pcp_client.Connector.Connection.{
  Connection, connecting, opened, ConnectionError, connection_processing_error, Exit, returned,
  threw, Event, handle_all, close,
}
use cpp_pcp_client.Connector.Connection.Connect.{Round, Ended, exited, still_trying}
use cpp_pcp_client.Connector.Connection.Connect
use cpp_pcp_client.Connector.Connection.Sending.{Frame}
use cpp_pcp_client.Connector.Base.{
  Thrown, message_error, thrown_as, Connected, over, connects_on, my_broker_uri,
  initialized_connection,
}
use cpp_pcp_client.V1.Serialization.{Bytes, Host}
use cpp_pcp_client.V1.Message.{of_envelope}
use cpp_pcp_client.V1.Schemas.{associate_req_type}
use cpp_pcp_client.V1.Association.{
  SessionAssociation, begin, associate_session, conclude, Associated, associated,
}
use cpp_pcp_client.V1.Association
use cpp_pcp_client.V1.Connector.{Connector, Stamp}
use cpp_pcp_client.V1.Connector.Sending.{send, create_envelope}
use cpp_pcp_client.V1.Connector.Dispatch.{Texts, process_message}

-- What the event loop does to the session: the connection opens, at an instant and with what is
-- stamped on the request and what websocketpp answers to it, a message arrives, or the connection
-- is closed or fails.
pub data SessionEvent : Type 0 where
  opens : ℕ → Stamp → Bool → SessionEvent
  receives : Bytes → SessionEvent
  loses : ℕ → SessionEvent

unfoldable pub close_association_timings : ℕ → AssociationTimings → AssociationTimings
close_association_timings now t =
    if t.completed && not t.closed then set_session_closed now t else t

-- What the rest of the world does during one call of `connect`: how the closing of an old
-- connection goes, whether a new one can be made, when connections are lost before the lock is
-- released, the rounds of `Connection::connect`, and what happens while it waits for the response.
pub record World : Type 0 where
  pub closing_at : ℕ
  pub closing_fails : Bool
  pub closing_events : List Event
  pub init_fails : Bool
  pub losses : List ℕ
  pub rounds : List Round
  pub waiting_events : List SessionEvent
  pub ended_at : ℕ

-- The wait for the closing handshake, whose exception is caught.
unfoldable pub awaited : World → Connection × Exit → Connection
awaited a (closing, returned) = handle_all a.closing_events closing
awaited a (closing, threw e) = closing

-- The `switch` on the state.
unfoldable pub ensure_closed : World → Connection → Connection
unfolding awaited
ensure_closed a c = elim c.connection_state [
  | connecting ↦ awaited a (close a.closing_at a.closing_fails c)
  | opened ↦ awaited a (close a.closing_at a.closing_fails c)
  | _ ↦ c
]

unfoldable pub losing : List ℕ → AssociationTimings → AssociationTimings
losing [] t = t
losing (now ∷ rest) t = losing rest (close_association_timings now t)

abbrev pub outcome : Associated → Option MonitorError
outcome Association.associated = none
outcome Association.association_error = some association_error
outcome Association.association_response_failure = some association_response_failure

module _ (V : Valijson) (J : JsonContainer V) (W : JsonWriter V) (texts : Texts)
    (raises : ℕ → ParsedChunks V → Bool) where
  -- `associateSession`: the connector, and the request that is sent or what is thrown.
  unfoldable pub associate :
      Host → ℕ → Stamp → Bool → Connector V → Connector V × Result Thrown Frame
  unfolding associate_session
  associate h now stamp ec c = (
    (let asked = associate_session now stamp.uuid (c.session_association, c.association_timings) in
        record c { session_association = asked.0; association_timings = asked.1 }),
    (do
      let chunk =
          create_envelope V J W (my_broker_uri ∷ []) associate_req_type c.association_timeout_s
            false stamp c.base
      msg ← thrown_as message_error (of_envelope chunk)
      send V h ec msg c.base),
  )

  unfoldable pub handle_session : Host → SessionEvent → Connector V → Connector V
  unfolding associate
  handle_session h (opens now stamp ec) c = (associate h now stamp ec c).0
  handle_session h (receives msg_txt) c = record c {
    session_association = (process_message V J texts raises h msg_txt c).session;
  }
  handle_session h (loses now) c = record c {
    association_timings = close_association_timings now c.association_timings;
  }

  unfoldable pub handle_sessions : Host → List SessionEvent → Connector V → Connector V
  handle_sessions h [] c = c
  handle_sessions h (e ∷ es) c = handle_sessions h es (handle_session h e c)

  -- Behind `Connection::connect`: the wait and its end, or the handler of its exception.
  unfoldable pub concluded :
      Connector V → (SessionAssociation × AssociationTimings) × Associated → Connector V × Connected
  concluded c ((s, t), end) =
      (record c { session_association = s; association_timings = t }, over (outcome end))

  unfoldable pub connect_failed : World → ConnectionError → Connector V → Connector V × Connected
  connect_failed a connection_processing_error c = (
    record c { association_timings = set_completed a.ended_at false c.association_timings },
    over (some config_error),
  )
  connect_failed a e c = (c, over (some (converted e)))

  unfoldable pub connected : Host → World → Ended → Connector V → Connector V × Connected
  unfolding concluded connect_failed
  connected h a (exited returned) c =
      let d = handle_sessions h a.waiting_events c in
      concluded d (conclude a.ended_at d.session_association d.association_timings)
  connected h a (exited (threw e)) c = connect_failed a e c
  connected h a still_trying c = (c, connects_on)

  -- The connector with the lock of its session, behind `Connection::connect`.
  unfoldable pub begun : World → Connection → Connector V → Connector V
  begun a connection c = record c {
    base = record c.base { connection = some connection };
    session_association = begin c.session_association;
    association_timings = losing a.losses c.association_timings;
  }

  unfoldable pub connect : Host → ℤ → World → Connector V → Connector V × Connected
  unfolding ensure_closed connected begun
  connect h max_connect_attempts a c = elim (initialized_connection V a.init_fails c.base) [
    | err e ↦ (c, over (some e))
    | ok connection ↦
        let run = Connect.connect max_connect_attempts (ensure_closed a connection) a.rounds in
        connected h a run.end (begun a run.connection c)
  ]
