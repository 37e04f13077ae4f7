-- ===== src/Fixed/Increment.antt =====
-- `Increment`, a tick size or a lot step: an integer between 1 and 2^63 - 1 and a number of decimal
-- places.
pub mod Division
pub mod Units
pub mod Normal
pub mod RoundTrip
pub mod Text
pub mod Agrees
use bowst.Prelude.{
  ℕ, zero, suc, ◌+◌, ◌-◌, ◌*◌, ◌/◌, ◌%◌, ◌^◌, max, min, Bool, true, false, ◌&&◌, ◌||◌, not, Option,
  some, none, and_then, List, [], ◌∷◌, ◌++◌, length, take, drop, ltb, leb, ◌==◌, if◌then◌else◌,
  u64_mod, sat_add, Result, ok, err, ◌>>=◌, ok_or,
}
use bowst.Prelude.Int.{
  ℤ, pos, negsuc, ◌*ℤ◌, i64_half, i128_half, checked, saturated, checked_mul, checked_div_euclid,
  checked_rem_euclid,
}
use bowst.Units.{not_positive}
use bowst.Fixed.{
  max_parse_scale, fast_digits, FixedError, too_many_decimals, overflow, non_positive_increment,
  Rounding, pow10_i64, round_quotient, Decimal, mantissa_at,
}
use bowst.Fixed.Parse.{parse_bytes}
use bowst.Fixed.Write.{magnitude}

pub record Increment : Type 0 where
  pub mantissa : ℕ
  pub scale : ℕ

-- The loop that drops trailing zeros. Each turn takes one off the scale.
unfoldable pub normalise : ℕ → ℕ → Increment
normalise mantissa zero = record { mantissa = mantissa; scale = 0 }
normalise mantissa (suc scale) =
    let next = normalise (mantissa / 10) scale in
    if mantissa % 10 == 0 then next else record { mantissa = mantissa; scale = suc scale }

unfoldable pub new : ℤ → ℕ → Result Increment FixedError
new mantissa scale =
    if not_positive mantissa
    then err non_positive_increment
    else if ltb max_parse_scale scale
    then err too_many_decimals
    else ok (normalise (magnitude mantissa) scale)

unfoldable pub parse : List ℕ → Result Increment FixedError
parse text = do
  d ← parse_bytes text
  mantissa ← ok_or (checked i64_half d.mantissa) overflow
  new mantissa d.scale

abbrev pub as_dec : Increment → Decimal
as_dec inc = record { mantissa = pos inc.mantissa; scale = inc.scale }

-- The closure `factor`.
unfoldable pub factor : ℕ → ℕ → Option ℕ
factor common scale = if leb scale common then pow10_i64 (common - scale) else none

unfoldable pub rescaled_i64 : Increment → Decimal → ℕ → Option (ℤ × ℤ)
rescaled_i64 inc value common = and_then (checked i64_half value.mantissa) (λ mantissa.
    and_then (factor common value.scale) (λ places.
      and_then (checked_mul i64_half mantissa (pos places)) (λ numerator.
        and_then (factor common inc.scale) (λ places'.
          and_then (checked_mul i64_half (pos inc.mantissa) (pos places'))
            (λ denominator. some (numerator, denominator))))))

abbrev pub is_some_zero : Option ℕ → Bool
is_some_zero none = false
is_some_zero (some n) = n == 0

-- The floor quotient, rounded, as an `i64`. Both paths of `to_units` end so, one in 64 and one in 128
-- bits.
unfoldable pub divide : ℕ → ℤ → ℤ → Rounding → Result ℤ FixedError
divide half numerator denominator rounding = do
  floor ← ok_or (checked_div_euclid half numerator denominator) overflow
  units ←
      round_quotient floor (is_some_zero (checked_rem_euclid half numerator denominator)) rounding
  ok_or (checked i64_half units) overflow

-- The general path.
unfoldable pub divide_exactly : Increment → Decimal → Rounding → Result ℤ FixedError
divide_exactly inc value rounding = do
  numerator ← mantissa_at value (max value.scale inc.scale)
  denominator ← mantissa_at (as_dec inc) (max value.scale inc.scale)
  divide i128_half numerator denominator rounding

unfoldable pub to_units : Increment → Decimal → Rounding → Result ℤ FixedError
to_units inc value rounding = elim (rescaled_i64 inc value (max value.scale inc.scale)) [
  | none ↦ divide_exactly inc value rounding
  | some (numerator, denominator) ↦ divide i64_half numerator denominator rounding
]

-- `bytes.iter().position(|&b| b == b'.')` and the split there; the flag says whether there is a point.
unfoldable pub split_point : List ℕ → List ℕ × List ℕ × Bool
split_point [] = ([], [], false)
split_point (b ∷ bytes) =
    let (int, frac, dot) = split_point bytes in
    if b == 46 then ([], bytes, true) else (b ∷ int, frac, dot)

unfoldable pub all_zeros : List ℕ → Bool
all_zeros [] = true
all_zeros (b ∷ bytes) = b == 48 && all_zeros bytes

-- The loop over the digits, with the arithmetic of `u8` and `u64`.
unfoldable pub read_digits : ℕ → List ℕ → Option ℕ
read_digits units [] = some units
read_digits units (byte ∷ bytes) =
    let digit = (byte + 256 - 48) % 256 in
    let next = read_digits ((units * 10 % u64_mod + digit) % u64_mod) bytes in
    if ltb 9 digit then none else next

-- The fast path, where the text is split.
unfoldable pub read_parts : ℕ → List ℕ → List ℕ → Bool → Option ℤ
read_parts wanted int frac dot =
    let kept = take (min (length frac) wanted) frac in
    let dropped = drop (min (length frac) wanted) frac in
    if dot && length frac == 0
    then none
    else if length int == 0 || ltb max_parse_scale (length frac)
    then none
    else if not (all_zeros dropped)
    then none
    else if ltb fast_digits (sat_add (length int) (length kept))
    then none
    else and_then (read_digits 0 (int ++ kept)) (λ units.
      and_then (checked i64_half (pos units)) (λ units'.
        and_then (pow10_i64 (wanted - length kept))
          (λ places. checked_mul i64_half units' (pos places))))

unfoldable pub parse_exact_power_of_ten : Increment → List ℕ → Option ℤ
parse_exact_power_of_ten inc bytes =
    let (int, frac, dot) = split_point bytes in
    if inc.mantissa == 1 then read_parts inc.scale int frac dot else none

unfoldable pub parse_units_bytes : Increment → List ℕ → Rounding → Result ℤ FixedError
parse_units_bytes inc bytes rounding = elim (parse_exact_power_of_ten inc bytes) [
  | some units ↦ ok units
  | none ↦ do value ← parse_bytes bytes; to_units inc value rounding
]

unfoldable pub from_units : Increment → ℤ → Decimal
from_units inc units = record {
  mantissa = saturated i128_half (units *ℤ pos inc.mantissa);
  scale = inc.scale;
}
