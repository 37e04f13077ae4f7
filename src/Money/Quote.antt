-- ===== src/Money/Quote.antt =====
-- A quote that is rounded to the passive side.
use bowst.Prelude.{
  ℕ, ◌+◌, ◌-◌, ◌*◌, ◌^◌, ◌≡◌, ◌⊎◌, inl, inr, refl, sym, ap, ap₂, ◌∙◌, max, Bool, true, false,
  Ordering, ok, arith,
}
use native.Mathlib.Nat.{mul-le-mul_right, add-mul, mul_assoc}
use bowst.Prelude.Int.{ℤ, pos, cmp, ◌*ℤ◌, fits, i64_half}
use bowst.Prelude.Euclid.{pos_part, neg_part, ◌≤ℤ◌, ◌<ℤ◌, ◌+ℤ◌, +ℤ_parts, scaled_parts, eq_of_parts}
use bowst.Units.{Price, Side, buy, sell, is_more_aggressive}
use bowst.Fixed.{Decimal, compare_decimals}
use bowst.Fixed.Order.{compare_decimals_lem}
use bowst.Fixed.Increment.{Increment}
use bowst.Fixed.Increment.Division.{Rounds}
use bowst.Fixed.Increment.Units.{
  IsIncrement, IsDecimal, numerator, denominator, common, to_units_lem,
}
use bowst.Fixed.Increment.RoundTrip.{from_units_lem}
use bowst.Money.{from_dec, to_dec, passive_rounding}

-- Whether the first of two values is more aggressive than the second, by how they compare.
abbrev pub beyond : Side → Ordering → Bool
beyond buy o = elim o [ Ordering.gt ↦ true | _ ↦ false ]
beyond sell o = elim o [ Ordering.lt ↦ true | _ ↦ false ]

is_more_aggressive_lem :
    (side : Side) (a b : Price) → is_more_aggressive side a b ≡ beyond side (cmp a b)
is_more_aggressive_lem buy a b = refl
is_more_aggressive_lem sell a b = refl

-- Multiples of `d` are ordered as the numbers are.
scaled_le : (a b : ℤ) (d : ℕ) → a ≤ℤ b → (a *ℤ pos d) ≤ℤ (b *ℤ pos d)
scaled_le a b d h = omega (
  arith,
  scaled_parts a d,
  scaled_parts b d,
  mul-le-mul_right {m = pos_part a + neg_part b} {n = pos_part b + neg_part a} d h,
  add-mul (pos_part a) (neg_part b) d,
  add-mul (pos_part b) (neg_part a) d,
)

scaled_lt : (a b : ℤ) (d : ℕ) → a <ℤ b → (a *ℤ pos d +ℤ pos d) ≤ℤ (b *ℤ pos d)
scaled_lt a b d h = omega (
  arith,
  scaled_parts a d,
  scaled_parts b d,
  +ℤ_parts (a *ℤ pos d) (pos d),
  mul-le-mul_right {m = pos_part a + neg_part b + 1} {n = pos_part b + neg_part a} d
      (omega (arith, h)),
  add-mul (pos_part a + neg_part b) 1 d,
  add-mul (pos_part a) (neg_part b) d,
  add-mul (pos_part b) (neg_part a) d,
)

not_gt : (a b : ℤ) → a ≤ℤ b → beyond buy (cmp a b) ≡ false
not_gt a b h = ground arith

not_lt : (a b : ℤ) → b ≤ℤ a → beyond sell (cmp a b) ≡ false
not_lt a b h = ground arith

is_gt : (a b : ℤ) → b <ℤ a → beyond buy (cmp a b) ≡ true
is_gt a b h = ground arith

is_lt : (a b : ℤ) → a <ℤ b → beyond sell (cmp a b) ≡ true
is_lt a b h = ground arith

gt_or_le :
    (a b : ℤ)
    → ((b <ℤ a) × (beyond buy (cmp a b) ≡ true)) ⊎ ((a ≤ℤ b) × (beyond buy (cmp a b) ≡ false))
gt_or_le a b = ground arith

lt_or_ge :
    (a b : ℤ)
    → ((a <ℤ b) × (beyond sell (cmp a b) ≡ true)) ⊎ ((b ≤ℤ a) × (beyond sell (cmp a b) ≡ false))
lt_or_ge a b = ground arith

multiple_beyond :
    (side : Side) (p q n : ℤ) (d : ℕ)
    → Rounds (passive_rounding side) p n d
    → beyond side (cmp (q *ℤ pos d) n) ≡ beyond side (cmp q p)
unfolding passive_rounding
multiple_beyond buy p q n d (a, b) = elim (gt_or_le q p) [
  | inl (h, e) ↦
      is_gt (q *ℤ pos d) n (omega (arith, b, scaled_lt p q d h, +ℤ_parts (p *ℤ pos d) (pos d)))
      ∙ sym e
  | inr (h, e) ↦ not_gt (q *ℤ pos d) n (omega (arith, a, scaled_le q p d h)) ∙ sym e
]
multiple_beyond sell p q n d (a, b) = elim (lt_or_ge q p) [
  | inl (h, e) ↦
      is_lt (q *ℤ pos d) n
        (omega (arith, b, scaled_lt q p d h, +ℤ_parts (q *ℤ pos d) (pos d), +ℤ_parts n (pos d)))
      ∙ sym e
  | inr (h, e) ↦ not_lt (q *ℤ pos d) n (omega (arith, a, scaled_le p q d h)) ∙ sym e
]

scaled_assoc : (a : ℤ) (m k : ℕ) → a *ℤ pos m *ℤ pos k ≡ a *ℤ pos (m * k)
scaled_assoc a m k = eq_of_parts _ _ (
    omega (
      arith,
      scaled_parts (a *ℤ pos m) k,
      ap (λ t. t * k) (scaled_parts a m).0,
      ap (λ t. t * k) (scaled_parts a m).1,
      scaled_parts a (m * k),
      mul_assoc (pos_part a) m k,
      mul_assoc (neg_part a) m k,
    ))

compare_to_dec :
    (inc : Increment) (value : Decimal) (q : ℤ)
    → IsIncrement inc
    → IsDecimal value
    → fits i64_half q ≡ true
    → compare_decimals (to_dec q inc) value
      ≡ cmp (q *ℤ pos (denominator inc value)) (numerator inc value)
unfolding to_dec
compare_to_dec inc value q v d f =
    let c : max inc.scale value.scale ≡ max value.scale inc.scale = omega arith in
    rw (from_units_lem inc q v f) (
      compare_decimals_lem (record { mantissa = q *ℤ pos inc.mantissa; scale = inc.scale }) value
        (omega (arith, v.few)) d.few
      ∙ ap₂ cmp
          (ap (λ t. q *ℤ pos inc.mantissa *ℤ pos (10 ^ (t - inc.scale))) c
            ∙ scaled_assoc q inc.mantissa (10 ^ (common inc value - inc.scale)))
          (ap (λ t. value.mantissa *ℤ pos (10 ^ (t - value.scale))) c))

-- A fair value rounded to the passive side of an order is the most aggressive price that does not cross
-- it: where the rounding has a result, another price, as a decimal number, is above the value on the buy
-- side, or below it on the sell side, if and only if it is more aggressive than that result.
pub passive_quote :
    (side : Side) (inc : Increment) (value : Decimal) (p q : Price)
    → IsIncrement inc
    → IsDecimal value
    → from_dec value inc (passive_rounding side) ≡ ok p
    → fits i64_half q ≡ true
    → beyond side (compare_decimals (to_dec q inc) value) ≡ is_more_aggressive side q p
unfolding from_dec
passive_quote side inc value p q v d e f =
    let (_, _, _, rounds) = (to_units_lem inc value (passive_rounding side) p v d).0 e in
    ap (beyond side) (compare_to_dec inc value q v d f)
    ∙ multiple_beyond side p q (numerator inc value) (denominator inc value) rounds
    ∙ sym (is_more_aggressive_lem side q p)
