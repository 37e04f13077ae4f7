-- ===== src/RateLimit.antt =====
-- The token bucket for venue request budgets, crates/bowst-venue/src/ratelimit.rs.
pub mod Bounds
mod Tests
use bowst.Prelude.{
  ℕ, ◌+◌, ◌-◌, ◌*◌, ◌/◌, ◌<◌, min, max, Bool, true, false, ltb, leb, ◌==◌, if◌then◌else◌, Result,
  ok, err, u64_max, sat_add128, sat_mul128, div_ceil, duration_max,
}

-- Times and spans are in nanoseconds; `scaled` counts tokens times the window.
pub record TokenBucket : Type 0 where
  pub capacity : ℕ
  pub window : ℕ
  pub scaled : ℕ
  pub last : ℕ

unfoldable pub new : ℕ → ℕ → ℕ → TokenBucket
new capacity window now =
    let w = max window 1 in
    record { capacity = capacity; window = w; scaled = sat_mul128 capacity w; last = now }

unfoldable pub refill : TokenBucket → ℕ → TokenBucket
refill b now =
    let elapsed = now - b.last in
    let full = sat_mul128 b.capacity b.window in
    record b {
      scaled = min (sat_add128 b.scaled (sat_mul128 elapsed b.capacity)) full;
      last = max b.last now;
    }

unfoldable pub available : TokenBucket → ℕ → TokenBucket × ℕ
available b now =
    let b' = refill b now in (b', min (if b'.window == 0 then 0 else b'.scaled / b'.window) u64_max)

unfoldable pub try_take : TokenBucket → ℕ → ℕ → TokenBucket × Result (Unit {0}) ℕ
try_take b cost now =
    if ltb b.capacity cost
    then (b, err duration_max)
    else (let b' = refill b now in
        let needed = sat_mul128 cost b'.window in
        if leb needed b'.scaled
        then (record b' { scaled = b'.scaled - needed }, ok tt)
        else (b', err (min (div_ceil (needed - b'.scaled) (max b'.capacity 1)) u64_max)))

unfoldable pub observe_used : TokenBucket → ℕ → ℕ → TokenBucket
observe_used b used now =
    let b' = refill b now in
    record b' { scaled = min b'.scaled (sat_mul128 (b'.capacity - used) b'.window) }
