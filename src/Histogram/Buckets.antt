-- ===== src/Histogram/Buckets.antt =====
-- The buckets: each value lies in the bucket it is counted in, which is at most 1/32 wider.
use bowst.Prelude.{
  ℕ, zero, suc, ◌+◌, ◌-◌, ◌*◌, ◌/◌, ◌%◌, ◌^◌, ◌<◌, ◌≤◌, ◌≡◌, refl, ap, ◌∙◌, min, Bool-cases, true,
  false, inl, inr, some, ltb, leb, u64_max, wrapping_sub32, wrapping_sub64, leading_zeros,
  checked_shl, arith,
}
use native.Mathlib.Nat.{
  pow-succ', mul_assoc, pow-le-pow_right, le-div_iff_mul-le, div-lt_iff_lt-mul, div-mul-le_self,
  lt-div-mul-add, mul-le-mul_right,
}
use bowst.Histogram.{bucket_of, upper_bound, buckets}

pow-add : (a b : ℕ) → 2 ^ (a + b) ≡ 2 ^ a * 2 ^ b
pow-add zero b = let e : zero + b ≡ b = omega arith in rw e (omega arith)
pow-add (suc a) b =
    let e : suc a + b ≡ suc (a + b) = omega arith in
    rw e (
      omega (
        arith,
        pow-succ' 2 (a + b),
        pow-succ' 2 a,
        pow-add a b,
        mul_assoc 2 (2 ^ a) (2 ^ b),
        ap (λ t. t * 2 ^ b) (pow-succ' 2 a),
      ))

-- The highest set bit of a value that is not zero.
pub leading_zeros_lem :
    (w v : ℕ)
    → 0 < v
    → v < 2 ^ w
    → (t : ℕ) × (leading_zeros w v + suc t ≡ w) × (2 ^ t ≤ v) × (v < 2 ^ suc t)
unfolding leading_zeros
leading_zeros_lem zero v p h = absurd (omega arith)
leading_zeros_lem (suc w) v p h = elim (Bool-cases (ltb v (2 ^ w))) [
  | inl low ↦
      let (t, e, lo, hi) = leading_zeros_lem w v p (ground arith) in
      (t, rw low (omega (arith, e)), lo, hi)
  | inr high ↦ (w, rw high (omega arith), ground arith, h)
]

shift_of : (z t : ℕ) → z + suc t ≡ 64 → 5 ≤ t → wrapping_sub32 (wrapping_sub32 63 z) 5 ≡ t - 5
shift_of z t e h = omega arith

index_of :
    (s q : ℕ)
    → s ≤ 58
    → 32 ≤ q
    → q < 64
    → ((s + 1) % 2 ^ 32 * 32 % 2 ^ 64 + wrapping_sub64 q 32) % 2 ^ 64 ≡ (s + 1) * 32 + (q - 32)
index_of s q h lo hi = omega arith

at_least_five : (t v : ℕ) → 32 ≤ v → v < 2 ^ suc t → 5 ≤ t
at_least_five t v lo hi = elim (Bool-cases (leb 5 t)) [
  | inl y ↦ ground arith
  | inr n ↦
      let le : 2 ^ suc t ≤ 2 ^ 5 =
        pow-le-pow_right {n = 2} (omega arith) {i = suc t} {j = 5} (ground arith) in
      absurd (omega (arith, le))
]

split_power : (t : ℕ) → 5 ≤ t → 2 ^ t ≡ 32 * 2 ^ (t - 5)
split_power t h = let e : t ≡ 5 + (t - 5) = omega arith in ap (λ k. 2 ^ k) e ∙ pow-add 5 (t - 5)

pub power-pos : (s : ℕ) → 0 < 2 ^ s
power-pos s = pow-le-pow_right {n = 2} (omega arith) {i = 0} {j = s} (omega arith)

-- The quotient by the power is in `32..64`, and its remainder is below the power.
pub quotient_range :
    (v s : ℕ) → 32 * 2 ^ s ≤ v → v < 64 * 2 ^ s → (32 ≤ v / 2 ^ s) × (v / 2 ^ s < 64)
quotient_range v s lo hi = (
  (le-div_iff_mul-le {x = 32} {y = v} (power-pos s)).1 lo,
  (div-lt_iff_lt-mul {x = v} {y = 64} (power-pos s)).1 hi,
)

-- Where a value of at least 32 is counted.
pub bucket_shape :
    (v : ℕ)
    → 32 ≤ v
    → v < 2 ^ 64
    → (s : ℕ) × (s ≤ 58)
      × (32 * 2 ^ s ≤ v)
      × (v < 64 * 2 ^ s)
      × (bucket_of v ≡ (s + 1) * 32 + (v / 2 ^ s - 32))
unfolding bucket_of
bucket_shape v lo hi = go (leading_zeros_lem 64 v (omega arith) hi)
  where
    go :
        (t : ℕ) × (leading_zeros 64 v + suc t ≡ 64) × (2 ^ t ≤ v) × (v < 2 ^ suc t)
        → (s : ℕ) × (s ≤ 58)
          × (32 * 2 ^ s ≤ v)
          × (v < 64 * 2 ^ s)
          × (bucket_of v ≡ (s + 1) * 32 + (v / 2 ^ s - 32))
    go (t, e, low, high) =
        let five = at_least_five t v lo high in
        let split = split_power t five in
        let twice = pow-succ' 2 t in
        let lo' : 32 * 2 ^ (t - 5) ≤ v = omega (arith, split) in
        let hi' : v < 64 * 2 ^ (t - 5) = omega (arith, split, twice) in
        let (q, q') = quotient_range v (t - 5) lo' hi' in
        let small : ltb v 32 ≡ false = ground arith in
        (
          t - 5,
          omega arith,
          lo',
          hi',
          rw (small, shift_of (leading_zeros 64 v) t e five)
              (index_of (t - 5) (v / 2 ^ (t - 5)) (omega arith) q q'),
        )

checked_shl-some : (a k : ℕ) → k < 64 → checked_shl a k ≡ some (a * 2 ^ k % 2 ^ 64)
unfolding checked_shl
checked_shl-some a k h = ground arith

-- The greatest value counted in a bucket above the exact ones.
pub upper_bound_shape :
    (s r : ℕ) → s ≤ 58 → r < 32 → upper_bound ((s + 1) * 32 + r) ≡ (32 + r) * 2 ^ s + (2 ^ s - 1)
unfolding upper_bound
upper_bound_shape s r h k =
    let d : ((s + 1) * 32 + r) / 32 - 1 ≡ s = omega arith in
    let m : ((s + 1) * 32 + r) % 32 ≡ r = omega arith in
    let below : ltb ((s + 1) * 32 + r) 32 ≡ false = ground arith in
    let within : leb 1920 ((s + 1) * 32 + r) ≡ false = ground arith in
    let top : 2 ^ s ≤ 2 ^ 58 = pow-le-pow_right {n = 2} (omega arith) {i = s} {j = 58} h in
    let small : (32 + r) * 2 ^ s ≤ 63 * 2 ^ s = mul-le-mul_right (2 ^ s) (omega arith) in
    let low : min (32 + r) u64_max ≡ 32 + r = omega arith in
    let pos = power-pos s in
    rw (within, below, d, m, low, checked_shl-some (32 + r) s (omega arith))
      (rw (d, checked_shl-some 1 s (omega arith)) (omega (arith, top, small, pos)))

-- A bucket reaches as far above each of its values as the power that it stands on.
in_bucket :
    (v s q : ℕ)
    → 32 ≤ q
    → q < 64
    → q * 2 ^ s ≤ v
    → v < q * 2 ^ s + 2 ^ s
    → 32 * 2 ^ s ≤ v
    → s ≤ 58
    → ((s + 1) * 32 + (q - 32) < buckets)
      × (v ≤ upper_bound ((s + 1) * 32 + (q - 32)))
      × (32 * upper_bound ((s + 1) * 32 + (q - 32)) ≤ 32 * v + v)
in_bucket v s q q32 q64 lo hi le h =
    let back : 32 + (q - 32) ≡ q = omega arith in
    rw (upper_bound_shape s (q - 32) h (omega arith), back) (omega arith, omega arith, omega arith)

pub exact_bucket : (v : ℕ) → ltb v 32 ≡ true → (bucket_of v ≡ v) × (upper_bound v ≡ v)
unfolding bucket_of upper_bound
exact_bucket v h = let w : leb 1920 v ≡ false = ground arith in (rw h refl, rw (w, h) refl)

-- A value below 2^64 is counted in a bucket that exists, is at most its upper bound, and the bound
-- is above the value by at most 1/32 of it.
pub upper_bound-bucket_of :
    (v : ℕ)
    → v < 2 ^ 64
    → (bucket_of v < buckets)
      × (v ≤ upper_bound (bucket_of v))
      × (32 * upper_bound (bucket_of v) ≤ 32 * v + v)
upper_bound-bucket_of v hi = elim (Bool-cases (ltb v 32)) [
  | inl small ↦
      let (e, u) = exact_bucket v small in rw (e, u) (ground arith, omega arith, omega arith)
  | inr large ↦ go (bucket_shape v (ground arith) hi)
]
  where
    go :
        (s : ℕ) × (s ≤ 58)
          × (32 * 2 ^ s ≤ v)
          × (v < 64 * 2 ^ s)
          × (bucket_of v ≡ (s + 1) * 32 + (v / 2 ^ s - 32))
        → (bucket_of v < buckets)
          × (v ≤ upper_bound (bucket_of v))
          × (32 * upper_bound (bucket_of v) ≤ 32 * v + v)
    go (s, h, lo', hi', e) =
        let (q, q') = quotient_range v s lo' hi' in
        rw e (
          in_bucket v s (v / 2 ^ s) q q' (div-mul-le_self v (2 ^ s))
            (lt-div-mul-add {a = v} (power-pos s)) lo' h)
