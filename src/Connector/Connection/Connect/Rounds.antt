-- ===== src/Connector/Connection/Connect/Rounds.antt =====
-- One pass through the loop of `connect`: what it keeps and how it can end.
use cpp_pcp_client.Base.{
  Option-cases, ℕ, ◌+◌, ◌*◌, ◌%◌, ◌^◌, ◌≡◌, inl, inr, refl, ap, ◌∙◌, Bool, true, false, ◌&&◌, leb,
  [], ◌∷◌, Bool-cases, arith,
}
use cpp_pcp_client.Connector.Durations.{pos}
use cpp_pcp_client.Connector.Connection.{
  ConnectionState, initialized, connecting, opened, closing, closed, is_closed_state, is_opened,
  is_initialized, Connection, returned, handle_all, switch_ws_uri,
}
use cpp_pcp_client.Connector.Connection.Events.{handle_all-Keeps}
use cpp_pcp_client.Connector.Connection.Connect.{
  Round, min_interval_ms, backoff_limit_ms, backoff_multiplier, attempted, backed_off, switched,
  at_max_backoff, again, attempt, retry, pass,
}
use cpp_pcp_client.Connector.Connection.Connect.Invariant.{
  HasBrokers, IsBackoff, IsRound, IsGood, IsOutcome, get_ws_uri-some, sleep_ms-IsSleep,
  next_backoff-double, begun, connect_and_wait-fails, connect_and_wait-waits, begun-IsGood,
  thrown_for-IsThrown,
}

and_right : (a b : Bool) → (a && b) ≡ true → b ≡ true
and_right a b h = ground arith

attempt-IsOutcome :
    (may_return : Bool) (state : ConnectionState) (r : Round) (c : Connection)
    → HasBrokers c
    → IsBackoff c.connection_backoff_ms
    → IsOutcome (attempt may_return state r c)
unfolding attempt attempted begun
attempt-IsOutcome may_return state r c h b = elim (Option-cases r.fails) [
  | inr (failure, f) ↦
      rw (attempt, connect_and_wait-fails r failure c h f)
        (inr (thrown_for-IsThrown failure), b, tt)
  | inl f ↦
      let d = handle_all r.waiting (begun r c) in
      let good = begun-IsGood state r c h b in
      rw (attempt, connect_and_wait-waits r c h f)
        (elim (Bool-cases (may_return && is_opened d.connection_state)) [
          | inl stop ↦ rw stop (inl (refl, and_right may_return _ stop), good.1, tt)
          | inr go ↦ rw go (good, tt)
        ])
]

pub switch_ws_uri-turns :
    (c : Connection)
    → HasBrokers c
    → switch_ws_uri c
      ≡ (record c { connection_target_index = (c.connection_target_index + 1) % 2 ^ 64 }, returned)
unfolding switch_ws_uri
switch_ws_uri-turns c h = rw (switch_ws_uri, (get_ws_uri-some c h).1)

longer-IsBackoff :
    (b : ℕ)
    → IsBackoff b
    → leb backoff_limit_ms (b * backoff_multiplier % 2 ^ 32) ≡ false
    → IsBackoff (b * 2)
longer-IsBackoff b (inl e) k = inr (inl (omega arith))
longer-IsBackoff b (inr (inl e)) k = inr (inr (inl (omega arith)))
longer-IsBackoff b (inr (inr (inl e))) k = inr (inr (inr (inl (omega arith))))
longer-IsBackoff b (inr (inr (inr (inl e)))) k = inr (inr (inr (inr (omega arith))))
longer-IsBackoff b (inr (inr (inr (inr e)))) k = ground arith

retry-IsOutcome :
    (longer : Bool) (state : ConnectionState) (r : Round) (c : Connection)
    → HasBrokers c
    → IsBackoff c.connection_backoff_ms
    → IsRound r
    → (longer ≡ true → at_max_backoff c ≡ false)
    → IsOutcome (retry longer state r c)
unfolding retry switched backed_off begun
retry-IsOutcome longer state r c h b j short =
    let turned = record c { connection_target_index = (c.connection_target_index + 1) % 2 ^ 64 } in
    let kept = handle_all-Keeps r.asleep turned in
    let e = handle_all r.asleep turned in
    let slept = sleep_ms-IsSleep c.connection_backoff_ms r.sleep_jitter b j.0 in
    let there : HasBrokers e = rw kept.0 h in
    let backoff : IsBackoff e.connection_backoff_ms = rw kept.1 b in
    elim (Option-cases r.fails) [
      | inr (failure, f) ↦
          rw (retry, switch_ws_uri-turns c h, connect_and_wait-fails r failure e there f)
            (inr (thrown_for-IsThrown failure), backoff, (slept, tt))
      | inl f ↦
          let d = handle_all r.waiting (begun r e) in
          let waited_kept = handle_all-Keeps r.waiting (begun r e) in
          let good = begun-IsGood state r e there backoff in
          rw (retry, switch_ws_uri-turns c h, connect_and_wait-waits r e there f)
            (elim (Bool-cases longer) [
              | inl more ↦
                  let doubled =
                    next_backoff-double d.connection_backoff_ms r.backoff_jitter good.1 j.1 in
                  let same : d.connection_backoff_ms ≡ c.connection_backoff_ms =
                    waited_kept.1 ∙ kept.1 in
                  rw (more, doubled, same)
                    (
                      (good.0, longer-IsBackoff c.connection_backoff_ms b (short more), good.2),
                      (slept, tt),
                    )
              | inr same ↦ rw same (good, (slept, tt))
            ])
    ]

poll-IsOutcome :
    (state : ConnectionState) (r : Round) (c : Connection)
    → HasBrokers c
    → IsBackoff c.connection_backoff_ms
    → is_initialized c.connection_state ≡ false
    → IsOutcome (again state (handle_all r.asleep c) (pos min_interval_ms ∷ []))
poll-IsOutcome state r c h b started =
    let kept = handle_all-Keeps r.asleep c in
    ((rw kept.0 h, rw kept.1 b, λ _. kept.2 started), ((200, refl, omega arith, omega arith), tt))

-- A pass keeps what makes it good, ends only by returning while the connection is open or by the
-- exception of `connect_`, and sleeps between 200 and 32500 ms.
pub pass-IsOutcome :
    (longer : Bool) (previous state : ConnectionState) (r : Round) (c : Connection)
    → state ≡ c.connection_state
    → IsGood previous c
    → IsRound r
    → (longer ≡ true → at_max_backoff c ≡ false)
    → IsOutcome (pass longer previous state r c)
unfolding pass
pass-IsOutcome longer previous initialized r c s good j short =
    elim (Bool-cases (is_initialized previous)) [
      | inl first ↦ rw first (attempt-IsOutcome true previous r c good.0 good.1)
      | inr later ↦ let other : true ≡ false = ap is_initialized s ∙ good.2 later in ground arith
    ]
pass-IsOutcome longer previous connecting r c s good j short =
    poll-IsOutcome connecting r c good.0 good.1 (rw (← s) refl)
pass-IsOutcome longer previous opened r c s good j short = elim (Bool-cases (is_opened previous)) [
  | inl before ↦ rw before (inl (refl, rw (← s) refl), good.1, tt)
  | inr before ↦ rw before (inl (refl, rw (← s) refl), inl refl, tt)
]
pass-IsOutcome longer previous closing r c s good j short =
    poll-IsOutcome closing r c good.0 good.1 (rw (← s) refl)
pass-IsOutcome longer previous closed r c s good j short =
    elim (Bool-cases (is_closed_state previous)) [
      | inl before ↦ rw before (attempt-IsOutcome false connecting r c good.0 good.1)
      | inr before ↦ rw before (retry-IsOutcome longer previous r c good.0 good.1 j short)
    ]
