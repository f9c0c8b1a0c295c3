-- ===== src/Connector/Connection/Brokers.antt =====
-- The brokers in turn.
use Prim.Native.String.{String}
use native.Mathlib.Nat.{mod-eq_of_lt, mod_self, zero-mod}
use cpp_pcp_client.Base.{
  ℕ, suc, zero, ◌+◌, ◌%◌, ◌^◌, ◌<◌, ◌≡◌, refl, false, ◌==◌, List, length, arith,
}
use cpp_pcp_client.Connector.Connection.{
  Connection, make_connection, element, get_ws_uri, switch_ws_uri,
}
use cpp_pcp_client.Connector.Connection.Connect.Invariant.{HasBrokers}
use cpp_pcp_client.Connector.Connection.Connect.Rounds.{switch_ws_uri-turns}

-- The connection after a number of switches.
unfoldable pub switches : ℕ → Connection → Connection
switches zero c = c
switches (suc n) c = (switch_ws_uri (switches n c)).0

switched_to : (i : ℕ) (c : Connection) → Connection
switched_to i c = record c { connection_target_index = c.connection_target_index + i }

switches-index :
    (i : ℕ) (c : Connection)
    → HasBrokers c
    → c.connection_target_index + i < 2 ^ 64
    → switches i c ≡ switched_to i c
unfolding switches switched_to
switches-index zero c h range =
    let same : c.connection_target_index + 0 ≡ c.connection_target_index = omega arith in
    rw same refl
switches-index (suc i) c h range =
    let earlier = switches-index i c h (omega arith) in
    let next : (c.connection_target_index + i + 1) % 2 ^ 64 ≡ c.connection_target_index + suc i =
      omega arith in
    rw (switches, earlier, switch_ws_uri-turns (switched_to i c) h, next)

turn :
    (us : List String) (retries i : ℕ)
    → (length us == 0) ≡ false
    → i < 2 ^ 64
    → get_ws_uri (switches i (make_connection us retries)) ≡ element us (i % length us)
unfolding make_connection get_ws_uri switched_to
turn us retries i there range =
    let zero_on : 0 + i ≡ i = omega arith in
    rw (switches-index i (make_connection us retries) there (omega arith), zero_on)
      (rw (get_ws_uri, there))

-- A connection starts with the first broker, each switch goes on to the next one in the list, and
-- the switch after the last goes back to the first, if there is a broker and there are fewer than
-- 2 ^ 64.
pub switches-visit :
    (us : List String) (retries i : ℕ)
    → i < length us
    → length us < 2 ^ 64
    → let c = make_connection us retries in
      (get_ws_uri (switches i c) ≡ element us i)
      × (get_ws_uri (switches (length us) c) ≡ get_ws_uri c)
unfolding switches
switches-visit us retries i inside range =
    let there : (length us == 0) ≡ false = ground arith in
    let back = turn us retries (length us) there range in
    let first = turn us retries 0 there (omega arith) in
    (
      rw (turn us retries i there (omega arith), mod-eq_of_lt inside),
      rw (back, mod_self (length us)) (rw (first, zero-mod (length us))),
    )
