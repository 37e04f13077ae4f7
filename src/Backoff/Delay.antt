-- ===== src/Backoff/Delay.antt =====
-- How long the backoff waits.
use bowst.Prelude.{
  ℕ, suc, ◌+◌, ◌*◌, ◌/◌, ◌^◌, ◌<◌, ◌≤◌, ◌≡◌, min, Bool-cases, inl, inr, ltb, u64_max, u32_max,
  sat_mul128, duration_max, arith,
}
use native.Mathlib.Nat.{mul-le-mul_left, pow-le-pow_right, div-le_of_le-mul, mul-le-mul}
use bowst.Backoff.{Backoff, factor, step, jitter, next_delay}

jitter-bounded : (half random : ℕ) → random ≤ u32_max → jitter half random ≤ half
unfolding jitter
jitter-bounded half random h =
    let le : sat_mul128 (min half u64_max) random ≤ half * u32_max = omega (
      arith,
      mul-le-mul {n₁ = min half u64_max} {m₁ = random} {n₂ = half} {m₂ = u32_max} (omega arith) h,
    ) in
    omega (arith, div-le_of_le-mul half le)

-- Every delay lies between half of the current step, rounded down, and the whole of it, so never
-- above the longest delay, for every random number that is a `u32`. The longest delay is a
-- duration.
pub next_delay_bounds :
    (b : Backoff) (random : ℕ)
    → random ≤ u32_max
    → b.longest ≤ duration_max
    → (step b / 2 ≤ (next_delay b random).1)
      × ((next_delay b random).1 ≤ step b)
      × (step b ≤ b.longest)
unfolding next_delay step
next_delay_bounds b random h d =
    let j = jitter-bounded (step b / 2) random h in (omega arith, omega (arith, j), omega arith)

factor-le : (a : ℕ) → factor a ≤ factor (suc a)
unfolding factor
factor-le a = elim (Bool-cases (ltb (suc a) 32)) [
  | inl low ↦
      ground (arith, pow-le-pow_right {n = 2} (omega arith) {i = a} {j = suc a} (omega arith))
  | inr high ↦ ground (arith, pow-le-pow_right {n = 2} (omega arith) {i = a} {j = 31})
]

-- The step never shrinks from one attempt to the next, as long as the count of attempts is below
-- the greatest `u32`.
pub step_grows :
    (b : Backoff) (random : ℕ) → b.attempt < u32_max → step b ≤ step (next_delay b random).0
unfolding step next_delay
step_grows b random h =
    let e : min (b.attempt + 1) u32_max ≡ suc b.attempt = omega arith in
    rw e (ground (arith, mul-le-mul_left b.initial (factor-le b.attempt)))

-- For fewer than 32 attempts since the last reset, as long as doubling stays within the longest
-- delay, which is a duration, the step is the initial delay times two to the number of attempts.
pub step_doubles :
    (b : Backoff)
    → b.attempt < 32
    → b.longest ≤ duration_max
    → b.initial * 2 ^ b.attempt ≤ b.longest
    → step b ≡ b.initial * 2 ^ b.attempt
unfolding step factor
step_doubles b h d le = ground arith
