-- ===== src/Connector/Durations.antt =====
-- The durations of lib/inc/cpp-pcp-client/connector/timings.hpp: differences of two instants in
-- nanoseconds, cut to a coarser unit and stored in an `int`.
use cpp_pcp_client.Base.{
  ℕ, suc, zero, ◌-◌, ◌/◌, ◌%◌, ◌^◌, ◌≤◌, ◌<◌, ◌≡◌, ap, ◌∙◌, ltb, leb, if◌then◌else◌, arith,
}

pub data ℤ : Type 0 where
  pos : ℕ → ℤ
  negsuc : ℕ → ℤ

-- The negative of a natural number.
abbrev pub neg : ℕ → ℤ
neg zero = pos 0
neg (suc n) = negsuc n

abbrev pub minus : ℕ → ℕ → ℤ
minus a b = if leb b a then pos (a - b) else neg (b - a)

-- Division that rounds toward zero.
abbrev pub quot : ℤ → ℕ → ℤ
quot (pos n) k = pos (n / k)
quot (negsuc n) k = neg (suc n / k)

-- The `int` of 32 bits with the residue `n`.
abbrev pub wrapped : ℕ → ℤ
wrapped n = if ltb n (2 ^ 31) then pos n else neg (2 ^ 32 - n)

abbrev pub to_int : ℤ → ℤ
to_int (pos n) = wrapped (n % 2 ^ 32)
to_int (negsuc n) = wrapped ((2 ^ 32 - suc n % 2 ^ 32) % 2 ^ 32)

-- Nanoseconds in a microsecond, a millisecond and a minute.
abbrev pub us : ℕ
us = 1000

abbrev pub ms : ℕ
ms = 1000000

abbrev pub minutes : ℕ
minutes = 60000000000

unfoldable pub duration_cast : ℕ → ℕ → ℕ → ℤ
duration_cast unit later earlier = to_int (quot (minus later earlier) unit)

to_int-small : (n : ℕ) → n < 2 ^ 31 → to_int (pos n) ≡ pos n
to_int-small n h = let small : n % 2 ^ 32 ≡ n = omega arith in ground arith

pub duration_cast-ordered :
    (unit later earlier : ℕ)
    → earlier ≤ later
    → (later - earlier) / unit < 2 ^ 31
    → duration_cast unit later earlier ≡ pos ((later - earlier) / unit)
unfolding duration_cast
duration_cast-ordered unit later earlier h k =
    let forward : minus later earlier ≡ pos (later - earlier) = ground arith in
    rw forward (to_int-small ((later - earlier) / unit) k)

pub duration_cast-same : (unit n : ℕ) → 0 / unit ≡ 0 → duration_cast unit n n ≡ pos 0
duration_cast-same unit n h =
    let nothing : n - n ≡ 0 = omega arith in
    let quotient : (n - n) / unit ≡ 0 = rw nothing h in
    duration_cast-ordered unit n n (omega arith) (rw quotient (omega arith)) ∙ ap pos quotient
