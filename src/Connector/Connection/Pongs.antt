-- ===== src/Connector/Connection/Pongs.antt =====
-- The consecutive pong timeouts.
use cpp_pcp_client.Base.{
  ℕ, suc, ◌+◌, ◌%◌, ◌^◌, ◌<◌, ◌≡◌, refl, ap, ◌∙◌, false, ◌==◌, leb, if◌then◌else◌, List, [], ◌∷◌,
  length, map, arith, Bool-cases, inl, inr,
}
use cpp_pcp_client.Connector.Connection.{
  ConnectionState, opened, closing, is_closed_state, Connection, Event, pong_event,
  pong_timeout_event, close, on_pong, on_pong_timeout, handle, handle_all,
}

-- Timeouts at the given instants, where websocketpp reports no error.
abbrev pub timeouts : List ℕ → List Event
timeouts instants = map (λ now. pong_timeout_event now false) instants

abbrev expected_state : ℕ → ℕ → ConnectionState
expected_state threshold count = if leb threshold count then closing else opened

Agrees : ℕ → ℕ → Connection → Type 0
Agrees threshold count c =
    (c.consecutive_pong_timeouts ≡ count)
    × (c.pong_timeouts_before_retry ≡ threshold)
    × (c.connection_state ≡ expected_state threshold count)

expected-up : (threshold count : ℕ) → is_closed_state (expected_state threshold count) ≡ false
expected-up threshold count = ground arith

timeout-Agrees :
    (threshold count now : ℕ) (c : Connection)
    → suc count < 2 ^ 32
    → Agrees threshold count c
    → Agrees threshold (suc count) (handle (pong_timeout_event now false) c)
unfolding Agrees handle on_pong_timeout close
timeout-Agrees threshold count now c range (counts, limits, state) =
    let next : (count + 1) % 2 ^ 32 ≡ suc count = omega arith in
    let up = expected-up threshold count in (ground arith, ground arith, ground arith)

pong-Agrees :
    (c : Connection)
    → c.connection_state ≡ opened
    → 0 < c.pong_timeouts_before_retry
    → Agrees c.pong_timeouts_before_retry 0 (on_pong c)
unfolding Agrees on_pong
pong-Agrees c up some =
    let fewer : leb c.pong_timeouts_before_retry 0 ≡ false = ground arith in
    elim (Bool-cases (c.consecutive_pong_timeouts == 0)) [
      | inl none_yet ↦ rw none_yet (ground arith, refl, rw (up, fewer))
      | inr before ↦ rw before (refl, refl, rw (up, fewer))
    ]

timeouts-Agrees :
    (threshold count : ℕ) (instants : List ℕ) (c : Connection)
    → count + length instants < 2 ^ 32
    → Agrees threshold count c
    → Agrees threshold (count + length instants) (handle_all (timeouts instants) c)
unfolding handle_all
timeouts-Agrees threshold count [] c range h =
    let same : count + 0 ≡ count = omega arith in rw same h
timeouts-Agrees threshold count (now ∷ rest) c range h =
    let sum : count + suc (length rest) ≡ suc count + length rest = omega arith in
    let first = timeout-Agrees threshold count now c (omega arith) h in
    rw sum (
      timeouts-Agrees threshold (suc count) rest (handle (pong_timeout_event now false) c)
        (omega arith) first)

-- On an open connection, a pong followed by pong timeouts starts the closing handshake exactly if
-- there are pong_timeouts_before_retry timeouts or more, if that number is not 0, the timeouts
-- are fewer than 2 ^ 32 and websocketpp reports no error.
pub timeouts-closing :
    (c : Connection) (instants : List ℕ)
    → c.connection_state ≡ opened
    → 0 < c.pong_timeouts_before_retry
    → length instants < 2 ^ 32
    → (handle_all (pong_event ∷ timeouts instants) c).connection_state
      ≡ (if leb c.pong_timeouts_before_retry (length instants) then closing else opened)
unfolding handle_all handle on_pong Agrees
timeouts-closing c instants up some range =
    (timeouts-Agrees c.pong_timeouts_before_retry 0 instants (on_pong c) (omega arith)
      (pong-Agrees c up some)).2
    ∙ ap (expected_state c.pong_timeouts_before_retry) (omega arith)
