-- ===== src/V1/Connector/Connect/Outcome.antt =====
-- How `connect` ends, and what it leaves of the session.
use mathlib.Core.Path.{subst}
use cpp_pcp_client.Base.{
  ℕ, ◌≡◌, ◌≢◌, ◌⊎◌, refl, sym, ap, ◌∙◌, inl, inr, Bool, true, false, List, none, Bool-cases, ok,
  arith,
}
use cpp_pcp_client.Validator.Valijson.{Valijson}
use cpp_pcp_client.ParsedChunks.{JsonContainer, ParsedChunks}
use cpp_pcp_client.JsonWriter.{JsonWriter}
use cpp_pcp_client.Connector.Durations.{ℤ}
use cpp_pcp_client.Connector.Timings.{AssociationTimings}
use cpp_pcp_client.Connector.Base.{Connected, over, initialized_connection}
use cpp_pcp_client.Connector.Connection.{
  Connection, returned, threw, ConnectionError, connection_processing_error, connection_fatal_error,
  proxy_exception, division_by_zero, assertion_failed,
}
use cpp_pcp_client.Connector.Connection.Connect.{Ended, exited, still_trying}
use cpp_pcp_client.Connector.Connection.Connect
use cpp_pcp_client.V1.Serialization.{Host}
use cpp_pcp_client.V1.Association.{
  SessionAssociation, begin, reset, conclude, Associated, associated,
}
use cpp_pcp_client.V1.Connector.{Connector}
use cpp_pcp_client.V1.Connector.Dispatch.{Texts}
use cpp_pcp_client.V1.Connector.Connect.{
  SessionEvent, handle_sessions, World, connect, connected, concluded, connect_failed, begun,
  ensure_closed, outcome,
}
use cpp_pcp_client.V1.Connector.Connect.Associates.{Accepts, waiting-Accepts}

conclude-success :
    (now : ℕ) (s : SessionAssociation) (t : AssociationTimings)
    → (conclude now s t).0.0.success ≡ true
    → (conclude now s t).1 ≡ associated
unfolding conclude reset
conclude-success now s t e = ground arith

conclude-associated :
    (now : ℕ) (s : SessionAssociation) (t : AssociationTimings)
    → (conclude now s t).1 ≡ associated
    → (s.success ≡ true) × (s.in_progress ≡ false) × ((conclude now s t).0.0 ≡ s)
unfolding conclude reset
conclude-associated now s t e = (ground arith, ground arith, ground arith)

over-none : (a : Associated) → ◌≡◌ {A = Connected} (over (outcome a)) (over none) → a ≡ associated
over-none Associated.associated e = refl
over-none Associated.association_error e = cc
over-none Associated.association_response_failure e = cc

module _ (V : Valijson) (J : JsonContainer V) (W : JsonWriter V) (texts : Texts)
    (raises : ℕ → ParsedChunks V → Bool) where
  -- A call that returned has met an acceptance; and the session is a success only then.
  abbrev Concludes : Host → List SessionEvent → Connector V → Connector V × Connected → Type 0
  Concludes h es c (d, r) =
      (d.session_association.success ≡ true → r ≡ over none)
      × (r ≡ over none
          → (d.session_association.success ≡ true)
            × (d.session_association.in_progress ≡ false)
            × Accepts V J W texts raises h c.base.validator c.base.schema_callback_pairs
                c.session_association.request_id es)

  connect_failed-Concludes :
      (h : Host) (es : List SessionEvent) (a : World) (e : ConnectionError) (c : Connector V)
      → c.session_association.success ≡ false
      → Concludes h es c (connect_failed V J W texts raises a e c)
  unfolding connect_failed
  connect_failed-Concludes h es a connection_processing_error c fresh = (λ s. cc, λ r. cc)
  connect_failed-Concludes h es a (connection_fatal_error n) c fresh = (λ s. cc, λ r. cc)
  connect_failed-Concludes h es a proxy_exception c fresh = (λ s. cc, λ r. cc)
  connect_failed-Concludes h es a division_by_zero c fresh = (λ s. cc, λ r. cc)
  connect_failed-Concludes h es a assertion_failed c fresh = (λ s. cc, λ r. cc)

  concluded-Concludes :
      (h : Host) (now : ℕ) (es : List SessionEvent) (c : Connector V)
      → c.session_association.success ≡ false
      → Concludes h es c (
          let d = handle_sessions V J W texts raises h es c in
          concluded V J W texts raises d (conclude now d.session_association d.association_timings))
  unfolding concluded
  concluded-Concludes h now es c fresh =
      let d = handle_sessions V J W texts raises h es c in
      let s = d.session_association in
      let t = d.association_timings in
      (
        λ success. ap (λ x. over (outcome x)) (conclude-success now s t success),
        λ ends.
            let (success, idle, same) = conclude-associated now s t (over-none _ ends) in
            (
              ap (λ (x : SessionAssociation). x.success) same ∙ success,
              ap (λ (x : SessionAssociation). x.in_progress) same ∙ idle,
              waiting-Accepts V J W texts raises h es c fresh success,
            ),
      )

  connected-Concludes :
      (h : Host) (a : World) (end : Ended) (c : Connector V)
      → c.session_association.success ≡ false
      → Concludes h a.waiting_events c (connected V J W texts raises h a end c)
  unfolding connected
  connected-Concludes h a (exited returned) c fresh =
      concluded-Concludes h a.ended_at a.waiting_events c fresh
  connected-Concludes h a (exited (threw e)) c fresh =
      connect_failed-Concludes h a.waiting_events a e c fresh
  connected-Concludes h a still_trying c fresh = (λ s. cc, λ r. cc)

  connect_lem :
      (h : Host) (max : ℤ) (a : World) (c : Connector V) (connection : Connection)
      → initialized_connection V a.init_fails c.base ≡ ok connection
      → connect V J W texts raises h max a c ≡ (
          let run = Connect.connect max (ensure_closed a connection) a.rounds in
          connected V J W texts raises h a run.end (begun V J W texts raises a run.connection c))
  unfolding connect
  connect_lem h max a c connection found = rw (connect, found) refl

  -- With a connection, old or new, a call of `connect` has one of two outcomes: it returns, the
  -- session is a success and no longer in progress, and while `connect` waited a message arrived
  -- that is read, goes to the callback for responses and reports success for the request that was
  -- sent last before it; or it throws, or still runs behind the given rounds, and the session is no
  -- success.
  pub connect-associates :
      (h : Host) (max : ℤ) (a : World) (c d : Connector V) (connection : Connection) (r : Connected)
      → initialized_connection V a.init_fails c.base ≡ ok connection
      → connect V J W texts raises h max a c ≡ (d, r)
      → ((r ≡ over none)
          × (d.session_association.success ≡ true)
          × (d.session_association.in_progress ≡ false)
          × Accepts V J W texts raises h c.base.validator c.base.schema_callback_pairs ""
              a.waiting_events)
        ⊎ ((r ≢ over none) × (d.session_association.success ≡ false))
  unfolding begun begin reset
  connect-associates h max a c d connection r found e =
      let run = Connect.connect max (ensure_closed a connection) a.rounds in
      let start = begun V J W texts raises a run.connection c in
      let made = connected-Concludes h a run.end start refl in
      let ends = connect_lem h max a c connection found in
      let (only_then, behind) =
        subst (λ x. Concludes h a.waiting_events start x) (sym ends ∙ e) made in
      elim (Bool-cases d.session_association.success) [
        | inl success ↦
            let returns = only_then success in
            inl (returns, success, (behind returns).1, (behind returns).2)
        | inr failure ↦ inr ((λ returns. let success = (behind returns).0 in cc), failure)
      ]
