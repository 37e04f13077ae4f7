-- ===== src/Fixed/Increment/RoundTrip.antt =====
-- A number of increments, as a decimal number and back.
use bowst.Prelude.{ℕ, ◌-◌, ◌*◌, ◌^◌, ◌<◌, ◌≤◌, ◌≡◌, refl, ap, ◌∙◌, true, ok, arith}
use native.Mathlib.Nat.{mul-le-mul_right}
use bowst.Prelude.Int.{ℤ, pos, negsuc, ◌*ℤ◌, fits, i64_half, i128_half}
use bowst.Prelude.Euclid.{pos_part, neg_part, +ℤ_parts, scaled_parts}
use bowst.Fixed.Powers.{scaled_one}
use bowst.Fixed.{Rounding, down, up, exact, Decimal}
use bowst.Fixed.Increment.{Increment, to_units, from_units}
use bowst.Fixed.Increment.Division.{Rounds}
use bowst.Fixed.Increment.Units.{IsIncrement, numerator, denominator, common, to_units_lem}

fits-parts : (h : ℕ) (a : ℤ) → pos_part a < h → neg_part a ≤ h → fits h a ≡ true
fits-parts h (pos n) p q = ground arith
fits-parts h (negsuc n) p q = ground arith

parts-fits : (h : ℕ) (a : ℤ) → fits h a ≡ true → (pos_part a ≤ h) × (neg_part a ≤ h)
parts-fits h (pos n) f = ground arith
parts-fits h (negsuc n) f = ground arith

-- The product of two `i64` fits in an `i128`.
product-fits :
    (u : ℤ) (m : ℕ) → fits i64_half u ≡ true → m < i64_half → fits i128_half (u *ℤ pos m) ≡ true
product-fits u m f b =
    let (p, n) = parts-fits i64_half u f in
    fits-parts i128_half (u *ℤ pos m) (omega (arith, scaled_parts u m, mul-le-mul_right m p, b))
      (omega (arith, scaled_parts u m, mul-le-mul_right m n, b))

pub from_units_lem :
    (inc : Increment) (u : ℤ)
    → IsIncrement inc
    → fits i64_half u ≡ true
    → from_units inc u ≡ record { mantissa = u *ℤ pos inc.mantissa; scale = inc.scale }
unfolding from_units
from_units_lem inc u v f = rw (product-fits u inc.mantissa f v.small) refl

pub multiple-Rounds : (r : Rounding) (u : ℤ) (d : ℕ) → 0 < d → Rounds r u (u *ℤ pos d) d
multiple-Rounds down u d p = omega (arith, scaled_parts u d, +ℤ_parts (u *ℤ pos d) (pos d))
multiple-Rounds up u d p = omega (arith, scaled_parts u d, +ℤ_parts (u *ℤ pos d) (pos d))
multiple-Rounds exact u d p = refl

-- A number of increments is exact as a decimal number, and is converted back to the same number, with
-- any rounding.
pub to_units-from_units :
    (inc : Increment) (u : ℤ) (r : Rounding)
    → IsIncrement inc
    → fits i64_half u ≡ true
    → to_units inc (from_units inc u) r ≡ ok u
to_units-from_units inc u r v f =
    let value : Decimal = record { mantissa = u *ℤ pos inc.mantissa; scale = inc.scale } in
    let none : common inc value - inc.scale ≡ 0 = omega arith in
    let n : numerator inc value ≡ u *ℤ pos inc.mantissa =
      ap (λ k. value.mantissa *ℤ pos (10 ^ k)) none ∙ scaled_one value.mantissa in
    let one : inc.mantissa * 10 ^ 0 ≡ inc.mantissa = omega arith in
    let d : denominator inc value ≡ inc.mantissa = ap (λ k. inc.mantissa * 10 ^ k) none ∙ one in
    let product = product-fits u inc.mantissa f v.small in
    rw (from_units_lem inc u v f) (
      (to_units_lem inc value r u v (record { bounded = product; few = omega (arith, v.few) })).1 (
        ap (fits i128_half) n ∙ product,
        omega (arith, d, v.small),
        f,
        rw (n, d) (multiple-Rounds r u inc.mantissa v.positive),
      ))
