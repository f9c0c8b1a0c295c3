-- ===== src/Connector/Connection/Connect/Outcome.antt =====
-- How `connect` ends.
use cpp_pcp_client.Base.{
  ℕ, suc, ◌+◌, ◌≤◌, ◌<◌, ◌≡◌, ◌⊎◌, inl, inr, refl, ap, Bool, true, false, not, ◌&&◌, ◌||◌, ltb,
  List, [], ◌∷◌, length, All, Bool-cases, arith,
}
use cpp_pcp_client.Connector.Durations.{ℤ, pos}
use cpp_pcp_client.Connector.Connection.{
  ConnectionState, is_opened, Connection, connection_processing_error, proxy_exception,
  connection_fatal_error, Exit, returned, threw, backoff_ms, handle_all,
}
use cpp_pcp_client.Connector.Connection.Events.{handle_all-Keeps}
use cpp_pcp_client.Connector.Connection.Connect.{
  Round, at_max_backoff, keeps_trying, Pass, again, ended, pass, exited, Run, slept_before, looped,
  connect_loop, connect,
}
use cpp_pcp_client.Connector.Connection.Connect.Invariant.{
  HasBrokers, IsBackoff, IsRound, IsSleep, IsGood, IsOutcome,
}
use cpp_pcp_client.Connector.Connection.Connect.Rounds.{pass-IsOutcome}

-- The function returned with an open connection, or what `connect_` throws went through.
abbrev pub IsAttempted : Run → Type 0
IsAttempted run =
    ((run.end ≡ exited returned) × (is_opened run.connection.connection_state ≡ true))
    ⊎ ((run.end ≡ exited (threw connection_processing_error))
        ⊎ (run.end ≡ exited (threw proxy_exception)))

abbrev pub IsExhausted : ℕ → Run → Type 0
IsExhausted n run =
    (run.end ≡ exited (threw (connection_fatal_error n)))
    × (run.connection.connection_backoff_ms ≡ backoff_ms)

abbrev pub IsPaced : Run → Type 0
IsPaced run = IsBackoff run.connection.connection_backoff_ms × All IsSleep run.sleeps

not_longer : (t g a : Bool) → (t && not (g || a)) ≡ true → a ≡ false
not_longer t g a h = ground arith

read-IsGood :
    (previous : ConnectionState) (r : Round) (c : Connection)
    → IsGood previous c
    → IsGood previous (handle_all r.before c)
read-IsGood previous r c good =
    let kept = handle_all-Keeps r.before c in
    (rw kept.0 good.0, rw kept.1 good.1, λ h. kept.2 (good.2 h))

-- The outcome of the first pass of a loop.
first-IsOutcome :
    (max : ℤ) (previous : ConnectionState) (done : ℕ) (got_max : Bool) (r : Round) (c : Connection)
    → IsGood previous c
    → IsRound r
    → let read = handle_all r.before c in
      IsOutcome (
        pass
          (keeps_trying max (suc done) && not (got_max || at_max_backoff read))
          previous
          read.connection_state
          r
          read)
first-IsOutcome max previous done got_max r c good j =
    let read = handle_all r.before c in
    pass-IsOutcome _ previous read.connection_state r read refl (read-IsGood previous r c good) j
      (λ h. not_longer (keeps_trying max (suc done)) got_max (at_max_backoff read) h)

Pass-cases :
    (p : Pass)
    → ((s : ConnectionState) × (d : Connection) × (slept : List ℤ) × (p ≡ again s d slept))
      ⊎ ((d : Connection) × (exit : Exit) × (slept : List ℤ) × (p ≡ ended d exit slept))
Pass-cases (again s d slept) = inl (s, d, slept, refl)
Pass-cases (ended d exit slept) = inr (d, exit, slept, refl)

slept_before-same : (ss : List ℤ) (run : Run) → (slept_before ss run).end ≡ run.end
slept_before-same [] run = refl
slept_before-same (s ∷ ss) run = refl

pub slept_before-connection :
    (ss : List ℤ) (run : Run) → (slept_before ss run).connection ≡ run.connection
slept_before-connection [] run = refl
slept_before-connection (s ∷ ss) run = refl

slept_before-sleeps :
    (ss : List ℤ) (run : Run)
    → All IsSleep ss
    → All IsSleep run.sleeps
    → All IsSleep (slept_before ss run).sleeps
slept_before-sleeps [] run h k = k
slept_before-sleeps (s ∷ ss) run h k = (h.0, slept_before-sleeps ss run h.1 k)

-- A loop whose rest paces itself does so too.
looped-IsPaced :
    (try_again : Bool) (idx : ℕ) (rest : ConnectionState → Connection → Run) (p : Pass)
    → IsOutcome p
    → ((s : ConnectionState) (d : Connection) → IsGood s d → IsPaced (rest s d))
    → IsPaced (looped try_again idx rest p)
unfolding looped
looped-IsPaced try_again idx rest (ended d exit slept) out more = (out.1, out.2)
looped-IsPaced true idx rest (again s d slept) out more =
    let later = more s d out.0 in
    (
      rw (slept_before-connection slept (rest s d)) later.0,
      slept_before-sleeps slept (rest s d) out.1 later.1,
    )
looped-IsPaced false idx rest (again s d slept) out more = (inl refl, out.1)

loop-IsPaced :
    (max : ℤ) (previous : ConnectionState) (done : ℕ) (got_max : Bool) (c : Connection)
    (rounds : List Round)
    → IsGood previous c
    → All IsRound rounds
    → IsPaced (connect_loop max previous done got_max c rounds)
unfolding connect_loop
loop-IsPaced max previous done got_max c [] good js = (good.1, tt)
loop-IsPaced max previous done got_max c (r ∷ rs) good js =
    looped-IsPaced (keeps_trying max (suc done)) (suc done) _ _
      (first-IsOutcome max previous done got_max r c good js.0)
      (λ s d later. loop-IsPaced max s (suc done) _ d rs later js.1)

-- However `connect` ends, and whatever the events and the attempts' results are, every sleep is
-- between 200 and 32500 ms and the backoff stays 2000 ms doubled at most four times, if there is a
-- broker and the numbers are drawn from their distribution.
pub connect-IsPaced :
    (max : ℤ) (c : Connection) (rounds : List Round)
    → HasBrokers c
    → IsBackoff c.connection_backoff_ms
    → All IsRound rounds
    → IsPaced (connect max c rounds)
unfolding connect
connect-IsPaced max c rounds brokers backoff js =
    loop-IsPaced max c.connection_state 0 false c rounds (brokers, backoff, λ h. h) js

-- A last pass is followed by the fatal error, and any other by the rest of the loop.
looped-ends :
    (n idx : ℕ) (rest : ConnectionState → Connection → Run) (p : Pass)
    → IsOutcome p
    → idx ≤ suc n
    → (idx < suc n
        → (s : ConnectionState) (d : Connection) → IsGood s d
        → IsAttempted (rest s d) ⊎ IsExhausted (suc n) (rest s d))
    → IsAttempted (looped (keeps_trying (pos (suc n)) idx) idx rest p)
      ⊎ IsExhausted (suc n) (looped (keeps_trying (pos (suc n)) idx) idx rest p)
unfolding looped
looped-ends n idx rest (ended d exit slept) out le more = elim out.0 [
  | inl open_now ↦ inl (inl (ap exited open_now.0, open_now.1))
  | inr (inl failed) ↦ inl (inr (inl (ap exited failed)))
  | inr (inr failed) ↦ inl (inr (inr (ap exited failed)))
]
looped-ends n idx rest (again s d slept) out le more = elim (Bool-cases (ltb idx (suc n))) [
  | inl below ↦
      rw (below, slept_before-same slept (rest s d), slept_before-connection slept (rest s d))
        (more (ground arith) s d out.0)
  | inr last ↦ let all : idx ≡ suc n = ground arith in rw (last, all) (inr (refl, refl))
]

loop-ends :
    (n : ℕ) (previous : ConnectionState) (done : ℕ) (got_max : Bool) (c : Connection)
    (rounds : List Round)
    → IsGood previous c
    → All IsRound rounds
    → done ≤ n
    → suc n ≤ done + length rounds
    → let run = connect_loop (pos (suc n)) previous done got_max c rounds in
      IsAttempted run ⊎ IsExhausted (suc n) run
unfolding connect_loop
loop-ends n previous done got_max c [] good js le enough = ground arith
loop-ends n previous done got_max c (r ∷ rs) good js le enough =
    looped-ends n (suc done) _ _ (first-IsOutcome (pos (suc n)) previous done got_max r c good js.0)
      (omega arith)
      (λ less s d later. loop-ends n s (suc done) _ d rs later js.1 (omega arith) (omega arith))

-- With a limit of n > 0 attempts, `connect` ends within n passes: it returns while the connection
-- is open, or throws what `connect_` throws, connection_processing_error or the exception of
-- websocketpp for a proxy, or throws connection_fatal_error after exactly n attempts with the backoff
-- reset. The `assert` never fails. There must be a broker.
pub connect-ends :
    (n : ℕ) (c : Connection) (rounds : List Round)
    → HasBrokers c
    → IsBackoff c.connection_backoff_ms
    → All IsRound rounds
    → suc n ≤ length rounds
    → let run = connect (pos (suc n)) c rounds in IsAttempted run ⊎ IsExhausted (suc n) run
unfolding connect
connect-ends n c rounds brokers backoff js enough =
    loop-ends n c.connection_state 0 false c rounds (brokers, backoff, λ h. h) js (omega arith)
      (omega arith)
