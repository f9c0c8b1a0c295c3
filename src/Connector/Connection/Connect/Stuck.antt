-- ===== src/Connector/Connection/Connect/Stuck.antt =====
-- `connect` after `connect_` threw: the state that it leaves behind.
use cpp_pcp_client.Base.{
  some, ℕ, suc, zero, ◌+◌, ◌≤◌, ◌≡◌, inl, inr, ap, Bool, true, false, ltb, List, [], ◌∷◌, length,
  replicate, All, Option-cases, arith,
}
use cpp_pcp_client.Connector.Durations.{pos}
use cpp_pcp_client.Connector.Timings.{reset}
use cpp_pcp_client.Connector.Connection.{
  ConnectFailure, ConnectionState, connecting, Connection, connection_fatal_error, threw,
  backoff_ms, handle_all, connect_once, get_ws_uri,
}
use cpp_pcp_client.Connector.Connection.Connect.{
  Round, min_interval_ms, pass, again, exited, Run, slept_before, looped, connect_loop, connect,
}

-- No event arrives between the attempts.
abbrev pub IsQuiet : Round → Type 0
IsQuiet r = (r.before ≡ []) × (r.asleep ≡ [])

begun_at : ℕ → Connection → Connection
begun_at now c = record c { connection_state = connecting; timings = reset now c.timings }

exhausted : ℕ → ℕ → Connection → Run
exhausted n slept c = record {
  connection = record c { connection_backoff_ms = backoff_ms };
  end = exited (threw (connection_fatal_error n));
  sleeps = replicate slept (pos min_interval_ms);
}

read-quiet : (r : Round) (c : Connection) → IsQuiet r → handle_all r.before c ≡ c
unfolding handle_all
read-quiet r c quiet = rw quiet.0

pass-quiet :
    (longer : Bool) (previous state : ConnectionState) (r : Round) (c : Connection)
    → state ≡ connecting
    → IsQuiet r
    → pass longer previous state r c ≡ again connecting c (pos min_interval_ms ∷ [])
unfolding pass handle_all
pass-quiet longer previous state r c s quiet = rw (s, quiet.1)

loop-stuck :
    (n k done : ℕ) (previous : ConnectionState) (got_max : Bool) (c : Connection)
    (rounds : List Round)
    → c.connection_state ≡ connecting
    → All IsQuiet rounds
    → suc n ≡ done + suc k
    → suc k ≤ length rounds
    → connect_loop (pos (suc n)) previous done got_max c rounds ≡ exhausted (suc n) (suc k) c
unfolding connect_loop looped exhausted
loop-stuck n k done previous got_max c [] s quiet sum enough = ground arith
loop-stuck n zero done previous got_max c (r ∷ rs) s quiet sum enough =
    let last : suc done ≡ suc n = omega arith in
    let stop : ltb (suc done) (suc n) ≡ false = ground arith in
    rw (
      connect_loop,
      read-quiet r c quiet.0,
      pass-quiet _ previous c.connection_state r c s quiet.0,
      stop,
      last,
    )
loop-stuck n (suc k) done previous got_max c (r ∷ rs) s quiet sum enough =
    let go : ltb (suc done) (suc n) ≡ true = ground arith in
    rw
      (
        connect_loop,
        read-quiet r c quiet.0,
        pass-quiet _ previous c.connection_state r c s quiet.0,
        go,
      )
      (ap (slept_before (pos min_interval_ms ∷ []))
        (loop-stuck n k (suc done) connecting _ c rs s quiet.1 (omega arith) (omega arith)))

left-connecting :
    (now : ℕ) (failure : ConnectFailure) (c d : Connection)
    → (connect_once now (some failure) c).0 ≡ d
    → d.connection_state ≡ connecting
unfolding connect_once begun_at
left-connecting now failure c d failed = elim (Option-cases (get_ws_uri (begun_at now c))) [
  | inl none_there ↦ rw (← failed) (rw (connect_once, none_there))
  | inr there ↦ rw (← failed) (rw (connect_once, there.1))
]

-- After `connect_` threw, a `connect` with a limit of n > 0 attempts, while no event arrives,
-- sleeps n times 200 ms and throws connection_fatal_error, with nothing changed but the backoff:
-- neither the broker nor the timings, which every attempt resets.
pub connect-stuck :
    (n now : ℕ) (failure : ConnectFailure) (c d : Connection) (rounds : List Round)
    → (connect_once now (some failure) c).0 ≡ d
    → All IsQuiet rounds
    → suc n ≤ length rounds
    → connect (pos (suc n)) d rounds ≡ record {
      connection = record d { connection_backoff_ms = backoff_ms };
      end = exited (threw (connection_fatal_error (suc n)));
      sleeps = replicate (suc n) (pos min_interval_ms);
    }
unfolding connect exhausted connect_once
connect-stuck n now failure c d rounds failed quiet enough =
    loop-stuck n n 0 d.connection_state false d rounds (left-connecting now failure c d failed)
      quiet (omega arith) enough
