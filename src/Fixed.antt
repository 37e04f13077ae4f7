-- ===== src/Fixed.antt =====
-- Exact decimal numbers, crates/bowst-core/src/fixed.rs. An `i128` is an integer whose range the
-- operations check; bytes are numbers below 256.
pub mod Powers
pub mod Parse
pub mod Write
pub mod Increment
pub mod Order
mod Tests
use bowst.Prelude.{
  ℕ, zero, suc, ◌+◌, ◌-◌, ◌*◌, ◌^◌, min, max, Bool, true, false, ◌&&◌, Option, some, none, Ordering,
  ltb, leb, ◌==◌, if◌then◌else◌, Result, ok, err, ◌>>=◌, ok_or, compare,
}
use bowst.Prelude.Int.{
  ℤ, pos, negsuc, cmp, fits, i128_half, checked, checked_mul, div_euclid, rem_euclid,
}

abbrev pub max_scale : ℕ
max_scale = 36

abbrev pub max_parse_scale : ℕ
max_parse_scale = 18

abbrev pub fast_digits : ℕ
fast_digits = 18

abbrev pub max_text_len : ℕ
max_text_len = 42

pub data FixedError : Type 0 where
  empty : FixedError
  invalid_char : ℕ → FixedError
  too_many_decimals : FixedError
  scale_too_large : FixedError
  overflow : FixedError
  non_positive_increment : FixedError
  not_multiple : FixedError
  buffer_too_small : FixedError

pub data Rounding : Type 0 where
  down up exact : Rounding

-- The entry of the table `POW10`, which has 39.
unfoldable pub pow10 : ℕ → Result ℕ FixedError
pow10 n = if ltb n 39 then ok (10 ^ n) else err scale_too_large

-- The entry of the table `POW10_I64`, which has 19.
unfoldable pub pow10_i64 : ℕ → Option ℕ
pow10_i64 n = if ltb n 19 then some (10 ^ n) else none

-- The values that are accumulated are never negative.
unfoldable pub accumulate : ℕ → ℕ → Result ℕ FixedError
accumulate value digit =
    if ltb (value * 10) i128_half && ltb (value * 10 + digit) i128_half
    then ok (value * 10 + digit)
    else err overflow

unfoldable pub plus_one : ℤ → ℤ
plus_one (pos n) = pos (n + 1)
plus_one (negsuc zero) = pos 0
plus_one (negsuc (suc n)) = negsuc n

unfoldable pub round_quotient : ℤ → Bool → Rounding → Result ℤ FixedError
round_quotient floor true rounding = ok floor
round_quotient floor false down = ok floor
round_quotient floor false up = ok_or (checked i128_half (plus_one floor)) overflow
round_quotient floor false exact = err not_multiple

pub record Decimal : Type 0 where
  pub mantissa : ℤ
  pub scale : ℕ

unfoldable pub new : ℤ → ℕ → Result Decimal FixedError
new mantissa scale =
    if ltb max_scale scale
    then err scale_too_large
    else ok (record { mantissa = mantissa; scale = scale })

unfoldable pub is_zero : Decimal → Bool
is_zero d = elim (cmp d.mantissa (pos 0)) [ Ordering.eq ↦ true | _ ↦ false ]

unfoldable pub is_negative : Decimal → Bool
is_negative d = elim (cmp d.mantissa (pos 0)) [ Ordering.lt ↦ true | _ ↦ false ]

unfoldable pub multiply : Decimal → Decimal → Result Decimal FixedError
multiply d rhs = do
  mantissa ← ok_or (checked_mul i128_half d.mantissa rhs.mantissa) overflow
  scale ← (if ltb (d.scale + rhs.scale) 256 then ok (d.scale + rhs.scale) else err scale_too_large)
  new mantissa scale

unfoldable pub mantissa_at : Decimal → ℕ → Result ℤ FixedError
mantissa_at d scale = do
  shift ← (if leb d.scale scale then ok (scale - d.scale) else err scale_too_large)
  factor ← pow10 shift
  ok_or (checked_mul i128_half d.mantissa (pos factor)) overflow

-- The entry of the table, or 1.
unfoldable pub unit_at : ℕ → ℕ
unit_at n = if ltb n 39 then 10 ^ n else 1

unfoldable pub split : Decimal → ℤ × ℕ
split d = (div_euclid d.mantissa (unit_at d.scale), rem_euclid d.mantissa (unit_at d.scale))

-- A fraction, which is not negative, at the larger scale.
unfoldable pub rescale : ℕ → ℕ → ℕ → ℕ
rescale common frac scale = min (frac * unit_at (common - scale)) (i128_half - 1)

-- `Ordering::then_with`.
abbrev pub then_with : Ordering → Ordering → Ordering
then_with Ordering.lt o = Ordering.lt
then_with Ordering.eq o = o
then_with Ordering.gt o = Ordering.gt

unfoldable pub compare_decimals : Decimal → Decimal → Ordering
compare_decimals a b =
    if a.scale == b.scale
    then cmp a.mantissa b.mantissa
    else then_with (cmp (split a).0 (split b).0) (
        compare (rescale (max a.scale b.scale) (split a).1 a.scale)
          (rescale (max a.scale b.scale) (split b).1 b.scale))
