-- ===== src/Fixed/Increment/Units.antt =====
-- `to_units` on both paths, and back by `from_units`.
use bowst.Prelude.{
  ℕ, zero, suc, ◌-◌, ◌*◌, ◌^◌, ◌<◌, ◌≤◌, ◌≡◌, ◌⊎◌, ◌↔◌, refl, max, Bool, true, false, ◌&&◌,
  Bool-cases, inl, inr, some, none, ltb, leb, if◌then◌else◌, ok, err, ◌>>=◌, ok_or, arith,
}
use native.Mathlib.Nat.{mul-pos}
use bowst.Prelude.Int.{
  ℤ, pos, ◌*ℤ◌, fits, i64_half, i128_half, checked, checked_div_euclid, checked_rem_euclid,
}
use bowst.Prelude.Euclid.{fits-div_euclid}
use bowst.Fixed.Powers.{pow-pos}
use bowst.Fixed.{overflow, Rounding, pow10, pow10_i64, Decimal, mantissa_at}
use bowst.Fixed.Increment.{
  Increment, as_dec, factor, rescaled_i64, divide, divide_exactly, to_units,
}
use bowst.Fixed.Increment.Division.{Rounds, divide_lem, fits-wider}

-- What `Increment::new` makes: a mantissa from 1 to 2^63 - 1 and at most 18 decimal places.
pub record IsIncrement (inc : Increment) : Type 0 where
  pub positive : 0 < inc.mantissa
  pub small : inc.mantissa < i64_half
  pub few : inc.scale ≤ 18

-- What `Dec::new` makes.
pub record IsDecimal (d : Decimal) : Type 0 where
  pub bounded : fits i128_half d.mantissa ≡ true
  pub few : d.scale ≤ 36

-- Both mantissas at the larger scale.
abbrev pub common : Increment → Decimal → ℕ
common inc value = max value.scale inc.scale

abbrev pub numerator : Increment → Decimal → ℤ
numerator inc value = value.mantissa *ℤ pos (10 ^ (common inc value - value.scale))

abbrev pub denominator : Increment → Decimal → ℕ
denominator inc value = inc.mantissa * 10 ^ (common inc value - inc.scale)

mantissa_at_lem :
    (d : Decimal) (scale : ℕ)
    → d.scale ≤ scale
    → scale ≤ 36
    → mantissa_at d scale
      ≡ ok_or (checked i128_half (d.mantissa *ℤ pos (10 ^ (scale - d.scale)))) overflow
unfolding mantissa_at pow10
mantissa_at_lem d scale a b =
    let t : leb d.scale scale ≡ true = ground arith in
    let u : ltb (scale - d.scale) 39 ≡ true = ground arith in rw (t, ◌>>=◌) (rw (u, ◌>>=◌) refl)

factor_lem :
    (c scale : ℕ)
    → scale ≤ c
    → factor c scale ≡ (if ltb (c - scale) 19 then some (10 ^ (c - scale)) else none)
unfolding factor pow10_i64
factor_lem c scale h = let t : leb scale c ≡ true = ground arith in rw t refl

divide_exactly_lem :
    (inc : Increment) (value : Decimal) (r : Rounding)
    → inc.scale ≤ 18
    → value.scale ≤ 36
    → divide_exactly inc value r ≡ (
        if fits i128_half (numerator inc value) && fits i128_half (pos (denominator inc value))
        then divide i128_half (numerator inc value) (pos (denominator inc value)) r
        else err overflow)
unfolding divide_exactly ◌*ℤ◌
divide_exactly_lem inc value r a b =
    rw
      (
        mantissa_at_lem value (common inc value) (omega arith) (omega arith),
        mantissa_at_lem (as_dec inc) (common inc value) (omega arith) (omega arith),
      )
      (go (fits i128_half (numerator inc value)) (ltb (denominator inc value) i128_half))
  where
    go :
        (s t : Bool)
        → (ok_or (if s then some (numerator inc value) else none) overflow >>= λ n.
            ok_or (if t then some (pos (denominator inc value)) else none) overflow >>= λ d.
            divide i128_half n d r)
          ≡ (if s && t
              then divide i128_half (numerator inc value) (pos (denominator inc value)) r
              else err overflow)
    go true true = refl
    go true false = refl
    go false t = refl

-- What the fast path goes on with, if it does.
rescaled_i64_lem :
    (inc : Increment) (value : Decimal)
    → (rescaled_i64 inc value (common inc value) ≡ none)
      ⊎ ((rescaled_i64 inc value (common inc value)
            ≡ some (numerator inc value, pos (denominator inc value)))
          × (fits i64_half (numerator inc value) ≡ true)
          × (fits i64_half (pos (denominator inc value)) ≡ true))
unfolding rescaled_i64 ◌*ℤ◌
rescaled_i64_lem inc value = elim (Bool-cases (fits i64_half value.mantissa)) [
  | inr a ↦ inl (rw (a, rescaled_i64) refl)
  | inl a ↦ elim (Bool-cases (ltb (common inc value - value.scale) 19)) [
    | inr b ↦ inl (rw (a, rescaled_i64) (rw (places, b) refl))
    | inl b ↦ elim (Bool-cases (fits i64_half (numerator inc value))) [
      | inr c ↦ inl (rw (a, rescaled_i64) (rw (places, b) (rw c refl)))
      | inl c ↦ elim (Bool-cases (ltb (common inc value - inc.scale) 19)) [
        | inr d ↦ inl (rw (a, rescaled_i64) (rw (places, b) (rw c (rw (places', d) refl))))
        | inl d ↦ elim (Bool-cases (ltb (denominator inc value) i64_half)) [
          | inr e ↦ inl (rw (a, rescaled_i64) (rw (places, b) (rw c (rw (places', d) (rw e refl)))))
          | inl e ↦
              inr (rw (a, rescaled_i64) (rw (places, b) (rw c (rw (places', d) (rw e refl)))), c, e)
        ]
      ]
    ]
  ]
]
  where
    places : factor (common inc value) value.scale ≡ (
        if ltb (common inc value - value.scale) 19
        then some (10 ^ (common inc value - value.scale))
        else none)
    places = factor_lem (common inc value) value.scale (omega arith)

    places' : factor (common inc value) inc.scale ≡ (
        if ltb (common inc value - inc.scale) 19
        then some (10 ^ (common inc value - inc.scale))
        else none)
    places' = factor_lem (common inc value) inc.scale (omega arith)

denominator-pos : (inc : Increment) (value : Decimal) → IsIncrement inc → 0 < denominator inc value
denominator-pos inc value v = mul-pos v.positive (pow-pos (common inc value - inc.scale))

-- In 64 and in 128 bits a division has the same result, if its operands fit.
divide_wider :
    (n : ℤ) (d : ℕ) (r : Rounding)
    → fits i64_half n ≡ true
    → 0 < d
    → divide i64_half n (pos d) r ≡ divide i128_half n (pos d) r
unfolding divide checked_div_euclid checked_rem_euclid
divide_wider n zero r f p = absurd (omega arith)
divide_wider n (suc d) r f p =
    rw
      (
        fits-div_euclid i64_half (suc d) n p f,
        fits-div_euclid i128_half (suc d) n p (fits-wider n f),
      )
      refl

-- The fast path of the conversion to whole increments changes nothing: for an increment and a decimal
-- number that their constructors make, the result, or the error, is that of the general path.
pub to_units-divide_exactly :
    (inc : Increment) (value : Decimal) (r : Rounding)
    → IsIncrement inc
    → IsDecimal value
    → to_units inc value r ≡ divide_exactly inc value r
unfolding to_units
to_units-divide_exactly inc value r v d = elim (rescaled_i64_lem inc value) [
  | inl e ↦ rw (e, to_units) refl
  | inr (e, f, g) ↦
      rw
        (
          e,
          divide_exactly_lem inc value r v.few d.few,
          fits-wider (numerator inc value) f,
          fits-wider (pos (denominator inc value)) g,
          to_units,
        )
        (divide_wider (numerator inc value) (denominator inc value) r f
          (denominator-pos inc value v))
]

-- The conversion has the result `u` if and only if both mantissas fit in an `i128` at the larger scale,
-- `u` fits in an `i64`, and `u` increments are the multiple of the increment that the rounding asks for:
-- the nearest one not above the value, the nearest one not below it, or the value itself. So an increment
-- that does not fit at that scale is refused also when the multiple would be 0 or 1.
pub to_units_lem :
    (inc : Increment) (value : Decimal) (r : Rounding) (u : ℤ)
    → IsIncrement inc
    → IsDecimal value
    → (to_units inc value r ≡ ok u) ↔ (
        (fits i128_half (numerator inc value) ≡ true)
        × (denominator inc value < i128_half)
        × (fits i64_half u ≡ true)
        × Rounds r u (numerator inc value) (denominator inc value))
to_units_lem inc value r u v d =
    rw (to_units-divide_exactly inc value r v d, divide_exactly_lem inc value r v.few d.few)
      (go (Bool-cases (fits i128_half (numerator inc value)))
        (Bool-cases (ltb (denominator inc value) i128_half)))
  where
    go :
        (fits i128_half (numerator inc value) ≡ true)
          ⊎ (fits i128_half (numerator inc value) ≡ false)
        → (ltb (denominator inc value) i128_half ≡ true)
          ⊎ (ltb (denominator inc value) i128_half ≡ false)
        → ((if fits i128_half (numerator inc value) && ltb (denominator inc value) i128_half
              then divide i128_half (numerator inc value) (pos (denominator inc value)) r
              else err overflow)
            ≡ ok u)
          ↔ ((fits i128_half (numerator inc value) ≡ true)
              × (denominator inc value < i128_half)
              × (fits i64_half u ≡ true)
              × Rounds r u (numerator inc value) (denominator inc value))
    go (inr f) g = rw f (λ e. absurd (cc), λ (t, _, _, _). absurd (cc))
    go (inl f) (inr g) = rw (f, g) (λ e. absurd (cc), λ (_, t, _, _). absurd (ground arith))
    go (inl f) (inl g) =
        let (sound, complete) =
          divide_lem i128_half (denominator inc value) (numerator inc value) r u f (omega arith)
            (omega arith) (denominator-pos inc value v) in
        rw (f, g)
          (
            λ e. let (small, rounds) = sound e in (refl, ground arith, small, rounds),
            λ (_, _, small, rounds). complete (small, rounds),
          )
