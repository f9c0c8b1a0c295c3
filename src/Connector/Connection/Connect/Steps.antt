-- ===== src/Connector/Connection/Connect/Steps.antt =====
-- A connection's life as single steps: the events, the attempts of `connect_`, the changes of the
-- broker and of the backoff, and the calls of `close`, in any order. `connect` and `cleanUp` are
-- such steps.
use mathlib.Core.Path.{subst}
use cpp_pcp_client.Base.{
  Option, if◌then◌else◌, sym, ℕ, ◌≡◌, refl, Bool, true, false, Bool-cases, ◌&&◌, List, [], ◌∷◌, inl,
  inr,
}
use cpp_pcp_client.Connector.Durations.{ℤ}
use cpp_pcp_client.Connector.Connection.{
  ConnectFailure, ConnectionState, initialized, connecting, opened, closing, closed,
  is_closed_state, is_opened, is_initialized, Connection, Exit, returned, threw, Event, close,
  try_close, handle, handle_all, connect_once, switch_ws_uri, clean_up,
}
use cpp_pcp_client.Connector.Connection.Connect.{
  Round, waited, connect_and_wait, Pass, again, ended, attempted, attempt, backed_off, switched,
  retry, pass, Run, looped, connect_loop, connect,
}
use cpp_pcp_client.Connector.Connection.Connect.Outcome.{slept_before-connection}

pub data Step : Connection → Connection → Type 0 where
  handling : (e : Event) (c : Connection) → Step c (handle e c)
  attempting :
      (now : ℕ) (fails : Option ConnectFailure) (c : Connection)
      → Step c (connect_once now fails c).0
  shutting : (now : ℕ) (ec : Bool) (c : Connection) → Step c (close now ec c).0
  switching : (c : Connection) → Step c (switch_ws_uri c).0
  pausing : (backoff : ℕ) (c : Connection) → Step c (record c { connection_backoff_ms = backoff })

pub data Steps : Connection → Connection → Type 0 where
  start : (c : Connection) → Steps c c
  after : {c d e : Connection} → Steps c d → Step d e → Steps c e

handle_all-Steps :
    {c : Connection} (es : List Event) (d : Connection) → Steps c d → Steps c (handle_all es d)
unfolding handle_all
handle_all-Steps [] d s = s
handle_all-Steps (e ∷ es) d s = handle_all-Steps es (handle e d) (after s (handling e d))

try_close-Steps :
    {c : Connection} (now : ℕ) (ec : Bool) (d : Connection)
    → Steps c d
    → Steps c (try_close now ec d)
unfolding try_close
try_close-Steps now ec d s = after s (shutting now ec d)

waited-Steps :
    {c : Connection} (r : Round) (p : Connection × Exit) → Steps c p.0 → Steps c (waited r p).0
unfolding waited
waited-Steps r (d, returned) s = handle_all-Steps r.waiting d s
waited-Steps r (d, threw e) s = s

connect_and_wait-Steps :
    {c : Connection} (r : Round) (d : Connection) → Steps c d → Steps c (connect_and_wait r d).0
unfolding connect_and_wait
connect_and_wait-Steps r d s =
    waited-Steps r (connect_once r.now r.fails d) (after s (attempting r.now r.fails d))

-- The connection behind a pass.
abbrev left_by : Pass → Connection
left_by (again state d slept) = d
left_by (ended d exit slept) = d

attempted-Steps :
    {c : Connection} (may_return : Bool) (previous : ConnectionState) (p : Connection × Exit)
    → Steps c p.0
    → Steps c (left_by (attempted may_return previous p))
unfolding attempted
attempted-Steps may_return previous (d, threw e) s = s
attempted-Steps may_return previous (d, returned) s =
    elim (Bool-cases (may_return && is_opened d.connection_state)) [
      | inl stop ↦ rw stop s
      | inr go ↦ rw go s
    ]

backed_off-Steps :
    {c : Connection} (longer : Bool) (previous : ConnectionState) (r : Round) (slept : ℤ)
    (p : Connection × Exit)
    → Steps c p.0
    → Steps c (left_by (backed_off longer previous r slept p))
unfolding backed_off
backed_off-Steps longer previous r slept (d, threw e) s = s
backed_off-Steps true previous r slept (d, returned) s = after s (pausing _ d)
backed_off-Steps false previous r slept (d, returned) s = s

switched-Steps :
    {c : Connection} (longer : Bool) (previous : ConnectionState) (r : Round)
    (p : Connection × Exit)
    → Steps c p.0
    → Steps c (left_by (switched longer previous r p))
unfolding switched
switched-Steps longer previous r (d, threw e) s = s
switched-Steps longer previous r (d, returned) s =
    backed_off-Steps longer previous r _ (connect_and_wait r (handle_all r.asleep d))
      (connect_and_wait-Steps r (handle_all r.asleep d) (handle_all-Steps r.asleep d s))

attempt-Steps :
    {c : Connection} (may_return : Bool) (previous : ConnectionState) (r : Round) (d : Connection)
    → Steps c d
    → Steps c (left_by (attempt may_return previous r d))
unfolding attempt
attempt-Steps may_return previous r d s =
    attempted-Steps may_return previous (connect_and_wait r d) (connect_and_wait-Steps r d s)

pass-Steps :
    {c : Connection} (longer : Bool) (previous state : ConnectionState) (r : Round) (d : Connection)
    → Steps c d
    → Steps c (left_by (pass longer previous state r d))
unfolding pass retry
pass-Steps longer previous initialized r d s = elim (Bool-cases (is_initialized previous)) [
  | inl first ↦ rw first (attempt-Steps true previous r d s)
  | inr later ↦ rw later s
]
pass-Steps longer previous connecting r d s = handle_all-Steps r.asleep d s
pass-Steps longer previous opened r d s = elim (Bool-cases (is_opened previous)) [
  | inl before ↦ rw before s
  | inr before ↦ rw before (after s (pausing _ d))
]
pass-Steps longer previous closing r d s = handle_all-Steps r.asleep d s
pass-Steps longer previous closed r d s = elim (Bool-cases (is_closed_state previous)) [
  | inl before ↦ rw before (attempt-Steps false connecting r d s)
  | inr before ↦
      rw before (switched-Steps longer previous r (switch_ws_uri d) (after s (switching d)))
]

looped-Steps :
    {c : Connection} (try_again : Bool) (idx : ℕ) (rest : ConnectionState → Connection → Run)
    (p : Pass)
    → Steps c (left_by p)
    → ((state : ConnectionState) (d : Connection) → Steps c d → Steps c (rest state d).connection)
    → Steps c (looped try_again idx rest p).connection
unfolding looped
looped-Steps try_again idx rest (ended d exit slept) s more = s
looped-Steps true idx rest (again state d slept) s more =
    rw (slept_before-connection slept (rest state d)) (more state d s)
looped-Steps false idx rest (again state d slept) s more = after s (pausing _ d)

loop-Steps :
    {c : Connection} (max : ℤ) (previous : ConnectionState) (done : ℕ) (got_max : Bool)
    (d : Connection) (rounds : List Round)
    → Steps c d
    → Steps c (connect_loop max previous done got_max d rounds).connection
unfolding connect_loop
loop-Steps max previous done got_max d [] s = s
loop-Steps max previous done got_max d (r ∷ rs) s =
    let read = handle_all r.before d in
    looped-Steps _ _ _ _
      (pass-Steps _ previous read.connection_state r read (handle_all-Steps r.before d s))
      (λ state e later. loop-Steps max state _ _ e rs later)

pub connect-Steps :
    (max : ℤ) (c : Connection) (rounds : List Round) → Steps c (connect max c rounds).connection
unfolding connect
connect-Steps max c rounds = loop-Steps max c.connection_state 0 false c rounds (start c)

clean_up-Steps_in :
    (state : ConnectionState) (now : ℕ) (ec : Bool) (events : List Event) (later : ℕ)
    (later_ec : Bool) (c : Connection)
    → c.connection_state ≡ state
    → Steps c (clean_up now ec events later later_ec c)
unfolding clean_up
clean_up-Steps_in closed now ec events later later_ec c e =
    let same : clean_up now ec events later later_ec c ≡ c = simp (clean_up, e) in
    subst (Steps c) (sym same) (start c)
clean_up-Steps_in initialized now ec events later later_ec c e =
    let same : clean_up now ec events later later_ec c ≡ c = simp (clean_up, e) in
    subst (Steps c) (sym same) (start c)
clean_up-Steps_in opened now ec events later later_ec c e =
    let tried = try_close now ec c in
    let same : clean_up now ec events later later_ec c ≡ handle_all events tried =
      simp (clean_up, e) in
    subst (Steps c) (sym same) (handle_all-Steps events tried (try_close-Steps now ec c (start c)))
clean_up-Steps_in closing now ec events later later_ec c e =
    let same : clean_up now ec events later later_ec c ≡ handle_all events c = simp (clean_up, e) in
    subst (Steps c) (sym same) (handle_all-Steps events c (start c))
clean_up-Steps_in connecting now ec events later later_ec c e =
    let tried = try_close now ec c in
    let closes = try_close-Steps now ec c (start c) in
    let waits = handle_all-Steps events tried closes in
    let again_closes = try_close-Steps later later_ec (handle_all events tried) waits in
    let same : clean_up now ec events later later_ec c ≡ (
        if is_closed_state tried.connection_state
        then tried
        else try_close later later_ec (handle_all events tried)) =
      simp (clean_up, e) in
    subst (Steps c) (sym same) (elim (Bool-cases (is_closed_state tried.connection_state)) [
      | inl stop ↦ rw stop closes
      | inr go ↦ rw go again_closes
    ])

pub clean_up-Steps :
    (now : ℕ) (ec : Bool) (events : List Event) (later : ℕ) (later_ec : Bool) (c : Connection)
    → Steps c (clean_up now ec events later later_ec c)
clean_up-Steps now ec events later later_ec c =
    clean_up-Steps_in c.connection_state now ec events later later_ec c refl
