-- ===== src/Connector/Connection/Connect/Invariant.antt =====
-- What holds between the passes of the loop of `connect`, and an attempt to connect.
use Prim.Native.String.{String}
use native.Mathlib.Nat.{mod-lt}
use cpp_pcp_client.Base.{
  none, inl, inr, ℕ, suc, zero, ◌+◌, ◌-◌, ◌*◌, ◌/◌, ◌%◌, ◌^◌, ◌≤◌, ◌<◌, ◌≡◌, ◌⊎◌, refl, true, false,
  ◌==◌, List, [], ◌∷◌, length, All, some, arith,
}
use cpp_pcp_client.Connector.Durations.{ℤ, pos, negsuc}
use cpp_pcp_client.Connector.Timings.{reset}
use cpp_pcp_client.Connector.Connection.{
  ConnectFailure, refused, bad_proxy, thrown_for, proxy_exception, Exit, ConnectionState,
  connecting, is_opened, is_initialized, Connection, connection_processing_error, returned, threw,
  element, get_ws_uri, handle_all, connect_once,
}
use cpp_pcp_client.Connector.Connection.Events.{handle_all-Keeps}
use cpp_pcp_client.Connector.Connection.Connect.{
  Round, connect_and_wait, waited, sleep_ms, next_backoff, Pass, again, ended,
}

-- There is a broker.
abbrev pub HasBrokers : Connection → Type 0
HasBrokers c = (length c.broker_ws_uris == 0) ≡ false

-- 2000 ms, doubled up to four times.
abbrev pub IsBackoff : ℕ → Type 0
IsBackoff b = (b ≡ 2000) ⊎ ((b ≡ 4000) ⊎ ((b ≡ 8000) ⊎ ((b ≡ 16000) ⊎ (b ≡ 32000))))

abbrev pub IsJitter : ℤ → Type 0
IsJitter (pos n) = n ≤ 500
IsJitter (negsuc n) = n < 500

-- The drawn numbers are in the range of the distribution.
abbrev pub IsRound : Round → Type 0
IsRound r = IsJitter r.sleep_jitter × IsJitter r.backoff_jitter

abbrev pub IsSleep : ℤ → Type 0
IsSleep s = (n : ℕ) × (s ≡ pos n) × (200 ≤ n) × (n ≤ 32500)

-- The state is `initialized` only if the one before was.
abbrev pub IsTracked : ConnectionState → Connection → Type 0
IsTracked previous c = is_initialized previous ≡ false → is_initialized c.connection_state ≡ false

abbrev pub IsGood : ConnectionState → Connection → Type 0
IsGood previous c = HasBrokers c × IsBackoff c.connection_backoff_ms × IsTracked previous c

-- What `connect_` throws.
abbrev pub IsThrown : Exit → Type 0
IsThrown exit = (exit ≡ threw connection_processing_error) ⊎ (exit ≡ threw proxy_exception)

pub thrown_for-IsThrown : (failure : ConnectFailure) → IsThrown (threw (thrown_for failure))
thrown_for-IsThrown refused = inl refl
thrown_for-IsThrown bad_proxy = inr refl

abbrev pub IsOutcome : Pass → Type 0
IsOutcome (again previous d slept) = IsGood previous d × All IsSleep slept
IsOutcome (ended d exit slept) =
    (((exit ≡ returned) × (is_opened d.connection_state ≡ true)) ⊎ IsThrown exit)
    × IsBackoff d.connection_backoff_ms
    × All IsSleep slept

pub element-some :
    (us : List String) (i : ℕ) → i < length us → (u : String) × (element us i ≡ some u)
element-some [] i h = elim h [ ]
element-some (u ∷ us) zero h = (u, refl)
element-some (u ∷ us) (suc i) h = element-some us i (omega arith)

pub positive : (n : ℕ) → (n == 0) ≡ false → 0 < n
positive n h = ground arith

pub get_ws_uri-some : (c : Connection) → HasBrokers c → (u : String) × (get_ws_uri c ≡ some u)
unfolding get_ws_uri
get_ws_uri-some c h =
    let there =
      element-some c.broker_ws_uris (c.connection_target_index % length c.broker_ws_uris)
        (mod-lt c.connection_target_index (positive (length c.broker_ws_uris) h)) in
    (there.0, rw h there.1)

pub backoff_range : (b : ℕ) → IsBackoff b → (2000 ≤ b) × (b ≤ 32000)
backoff_range b h = (ground arith, ground arith)

pub sleep_ms-IsSleep : (b : ℕ) (j : ℤ) → IsBackoff b → IsJitter j → IsSleep (sleep_ms b j)
unfolding sleep_ms
sleep_ms-IsSleep b (pos n) h k =
    let range = backoff_range b h in
    let sum : (b + n % 2 ^ 32) % 2 ^ 32 ≡ b + n = omega arith in
    (b + n, rw sum (ground arith), omega arith, omega arith)
sleep_ms-IsSleep b (negsuc n) h k =
    let range = backoff_range b h in
    let sum : (b + (2 ^ 32 - suc n % 2 ^ 32) % 2 ^ 32) % 2 ^ 32 ≡ b - suc n = omega arith in
    (b - suc n, rw sum (ground arith), omega arith, omega arith)

pub next_backoff-double : (b : ℕ) (j : ℤ) → IsBackoff b → IsJitter j → next_backoff b j ≡ b * 2
unfolding next_backoff
next_backoff-double b (pos n) h k =
    let range = backoff_range b h in
    let quotient : n / 1000 ≡ 0 = omega arith in rw quotient (omega arith)
next_backoff-double b (negsuc n) h k =
    let range = backoff_range b h in
    let quotient : suc n / 1000 ≡ 0 = omega arith in rw quotient (omega arith)

-- `connect_` and the wait, where there is a broker: the timings are reset, and either the exception
-- is thrown from the state `connecting` or the events of the wait are handled.
unfoldable pub begun : Round → Connection → Connection
begun r c = record c { connection_state = connecting; timings = reset r.now c.timings }

pub connect_and_wait-fails :
    (r : Round) (failure : ConnectFailure) (c : Connection)
    → HasBrokers c
    → r.fails ≡ some failure
    → connect_and_wait r c ≡ (begun r c, threw (thrown_for failure))
unfolding connect_and_wait waited connect_once begun
connect_and_wait-fails r failure c h f =
    let there = get_ws_uri-some (begun r c) h in rw (connect_and_wait, connect_once, there.1, f)

pub connect_and_wait-waits :
    (r : Round) (c : Connection)
    → HasBrokers c
    → r.fails ≡ none
    → connect_and_wait r c ≡ (handle_all r.waiting (begun r c), returned)
unfolding connect_and_wait waited connect_once begun
connect_and_wait-waits r c h f =
    let there = get_ws_uri-some (begun r c) h in rw (connect_and_wait, connect_once, there.1, f)

pub begun-IsGood :
    (state : ConnectionState) (r : Round) (c : Connection)
    → HasBrokers c
    → IsBackoff c.connection_backoff_ms
    → IsGood state (handle_all r.waiting (begun r c))
unfolding begun
begun-IsGood state r c h b =
    let kept = handle_all-Keeps r.waiting (begun r c) in
    (rw kept.0 h, rw kept.1 b, λ _. kept.2 refl)
