-- ===== src/Connector/Connection/Connect.antt =====
-- `Connection::connect` and `connectAndWait`. A `Round` is what the rest of the world does during
-- one pass through the loop: the events before the state is read, while the thread sleeps and
-- while it waits for the connection to open; the instant at which `connect_` resets the timings and
-- how it fails, if it does; and the two numbers drawn from -500 to 500.
use cpp_pcp_client.Base.{
  Option, ℕ, suc, ◌+◌, ◌*◌, ◌%◌, ◌^◌, Bool, true, false, not, ◌&&◌, ◌||◌, ltb, leb, if◌then◌else◌,
  List, [], ◌∷◌,
}
use cpp_pcp_client.Connector.Durations.{ℤ, pos, negsuc, quot, wrapped}
use cpp_pcp_client.Connector.Timings.{to_uint32, is_nonzero}
use cpp_pcp_client.Connector.Connection.{
  ConnectionState, initialized, connecting, opened, closing, closed, is_closed_state, is_opened,
  is_initialized, Connection, connection_fatal_error, assertion_failed, Exit, returned, threw,
  backoff_ms, ConnectFailure, Event, handle_all, connect_once, switch_ws_uri,
}
pub mod Invariant
pub mod Rounds
pub mod Outcome
pub mod Stuck
pub mod Steps
pub mod Timed

pub record Round : Type 0 where
  pub before : List Event
  pub asleep : List Event
  pub waiting : List Event
  pub now : ℕ
  pub fails : Option ConnectFailure
  pub sleep_jitter : ℤ
  pub backoff_jitter : ℤ

-- CONNECTION_MIN_INTERVAL_MS, CONNECTION_BACKOFF_LIMIT_MS and CONNECTION_BACKOFF_MULTIPLIER.
abbrev pub min_interval_ms : ℕ
min_interval_ms = 200

abbrev pub backoff_limit_ms : ℕ
backoff_limit_ms = 33000

abbrev pub backoff_multiplier : ℕ
backoff_multiplier = 2

-- The events up to the moment at which the wait ends: the connection is open, or the time is over.
unfoldable pub waited : Round → Connection × Exit → Connection × Exit
waited r (begun, returned) = (handle_all r.waiting begun, returned)
waited r (begun, threw e) = (begun, threw e)

unfoldable pub connect_and_wait : Round → Connection → Connection × Exit
connect_and_wait r c = waited r (connect_once r.now r.fails c)

-- The argument of `doSleep`, computed in uint32_t and taken as an int.
unfoldable pub sleep_ms : ℕ → ℤ → ℤ
sleep_ms backoff jitter = wrapped ((backoff + to_uint32 jitter) % 2 ^ 32)

unfoldable pub next_backoff : ℕ → ℤ → ℕ
next_backoff backoff jitter =
    backoff * ((to_uint32 (quot jitter 1000) + backoff_multiplier) % 2 ^ 32) % 2 ^ 32

-- `idx < max_connect_attempts`, for ints.
abbrev pub below : ℕ → ℤ → Bool
below idx (pos n) = ltb idx n
below idx (negsuc n) = false

-- How a pass through the loop ends: with the state read before and the one now, or with the
-- function's end. Both carry what the pass slept.
pub data Pass : Type 0 where
  again : ConnectionState → Connection → List ℤ → Pass
  ended : Connection → Exit → List ℤ → Pass

-- The case `initialized` and the first of the case `closed`: connect and wait, and return if the
-- caller asks for it and the connection is open.
unfoldable pub attempted : Bool → ConnectionState → Connection × Exit → Pass
attempted may_return previous (d, threw e) = ended d (threw e) []
attempted may_return previous (d, returned) =
    if may_return && is_opened d.connection_state then ended d returned [] else again previous d []

unfoldable pub attempt : Bool → ConnectionState → Round → Connection → Pass
attempt may_return previous r c = attempted may_return previous (connect_and_wait r c)

-- The rest of the case `closed`: another broker, a sleep, an attempt and a longer backoff.
unfoldable pub backed_off : Bool → ConnectionState → Round → ℤ → Connection × Exit → Pass
unfolding next_backoff
backed_off longer previous r slept (f, threw e) = ended f (threw e) (slept ∷ [])
backed_off longer previous r slept (f, returned) =
    let next = next_backoff f.connection_backoff_ms r.backoff_jitter in
    again previous (if longer then record f { connection_backoff_ms = next } else f) (slept ∷ [])

unfoldable pub switched : Bool → ConnectionState → Round → Connection × Exit → Pass
switched longer previous r (d, threw e) = ended d (threw e) []
switched longer previous r (d, returned) =
    let slept = sleep_ms d.connection_backoff_ms r.sleep_jitter in
    backed_off longer previous r slept (connect_and_wait r (handle_all r.asleep d))

unfoldable pub retry : Bool → ConnectionState → Round → Connection → Pass
retry longer previous r c = switched longer previous r (switch_ws_uri c)

abbrev pub restored : ConnectionState → Connection → Connection
restored previous c =
    if not (is_opened previous) then record c { connection_backoff_ms = backoff_ms } else c

-- The `switch`, on the state that was read. `longer` is `try_again && !got_max_backoff`.
unfoldable pub pass : Bool → ConnectionState → ConnectionState → Round → Connection → Pass
unfolding attempt retry
pass longer previous initialized r c =
    if is_initialized previous
    then attempt true previous r c
    else ended c (threw assertion_failed) []
pass longer previous connecting r c =
    again connecting (handle_all r.asleep c) (pos min_interval_ms ∷ [])
pass longer previous opened r c = ended (restored previous c) returned []
pass longer previous closing r c = again closing (handle_all r.asleep c) (pos min_interval_ms ∷ [])
pass longer previous closed r c =
    if is_closed_state previous then attempt false connecting r c else retry longer previous r c

abbrev pub keeps_trying : ℤ → ℕ → Bool
keeps_trying max idx = if is_nonzero max then below idx max else true

abbrev pub at_max_backoff : Connection → Bool
at_max_backoff c = leb backoff_limit_ms (c.connection_backoff_ms * backoff_multiplier % 2 ^ 32)

-- The connection, what was thrown or that the function returned, or that it still runs after the
-- given rounds, and the sleeps.
pub data Ended : Type 0 where
  exited : Exit → Ended
  still_trying : Ended

pub record Run : Type 0 where
  pub connection : Connection
  pub end : Ended
  pub sleeps : List ℤ

abbrev pub slept_before : List ℤ → Run → Run
slept_before [] run = run
slept_before (s ∷ ss) run = record run { sleeps = s ∷ (slept_before ss run).sleeps }

-- After a pass: the loop's end, the rest of the loop, or the exception behind it.
unfoldable pub looped : Bool → ℕ → (ConnectionState → Connection → Run) → Pass → Run
looped try_again idx rest (ended d exit slept) = record {
  connection = d;
  end = exited exit;
  sleeps = slept;
}
looped try_again idx rest (again state d slept) =
    let later = rest state d in
    if try_again then slept_before slept later else record {
      connection = record d { connection_backoff_ms = backoff_ms };
      end = exited (threw (connection_fatal_error idx));
      sleeps = slept;
    }

-- The loop, from the number of the passes done. Its condition is tested after each pass.
unfoldable pub connect_loop : ℤ → ConnectionState → ℕ → Bool → Connection → List Round → Run
connect_loop max previous done got_max c [] = record {
  connection = c;
  end = still_trying;
  sleeps = [];
}
connect_loop max previous done got_max c (r ∷ rs) =
    let read = handle_all r.before c in
    let idx = suc done in
    let try_again = keeps_trying max idx in
    let got = got_max || at_max_backoff read in
    looped try_again idx (λ state d. connect_loop max state idx got d rs)
      (pass (try_again && not got) previous read.connection_state r read)

unfoldable pub connect : ℤ → Connection → List Round → Run
unfolding connect_loop
connect max_connect_attempts c rounds =
    connect_loop max_connect_attempts c.connection_state 0 false c rounds
