-- ===== src/Backoff.antt =====
-- Exponential reconnect backoff with jitter, crates/bowst-venue/src/backoff.rs.
pub mod Delay
mod Tests
use bowst.Prelude.{
  ℕ, ◌+◌, ◌*◌, ◌/◌, ◌^◌, min, max, Option, none, some, ltb, leb, if◌then◌else◌, sat_add, u64_max,
  u32_max, sat_mul128, duration_max,
}

-- Spans are in nanoseconds; `attempt` is a `u32`, and its maximum is not reached.
pub record Backoff : Type 0 where
  pub initial : ℕ
  pub longest : ℕ
  pub attempt : ℕ

abbrev pub new : ℕ → ℕ → Backoff
new initial longest = record { initial = initial; longest = max longest initial; attempt = 0 }

-- `1_u32.checked_shl(attempt).unwrap_or(u32::MAX)`.
unfoldable pub factor : ℕ → ℕ
factor attempt = if ltb attempt 32 then 2 ^ attempt else u32_max

-- `Duration::checked_mul`.
abbrev pub duration_mul : ℕ → ℕ → Option ℕ
duration_mul d k = if leb (d * k) duration_max then some (d * k) else none

unfoldable pub step : Backoff → ℕ
step b =
    min (elim (duration_mul b.initial (factor b.attempt)) [ some d ↦ d | none ↦ b.longest ])
      b.longest

-- The part of `half` that is added, by the random number.
unfoldable pub jitter : ℕ → ℕ → ℕ
jitter half random = min (sat_mul128 (min half u64_max) random / u32_max) u64_max

unfoldable pub next_delay : Backoff → ℕ → Backoff × ℕ
next_delay b random =
    let half = step b / 2 in
    (
      record b { attempt = min (b.attempt + 1) u32_max },
      min (half + jitter half random) duration_max,
    )

abbrev pub reset : Backoff → Backoff
reset b = record b { attempt = 0 }
