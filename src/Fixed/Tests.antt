-- ===== src/Fixed/Tests.antt =====
-- Numbers as venues send them.
use bowst.Prelude.{
  ℕ, ◌+◌, ◌*◌, ◌^◌, ◌<◌, ◌≡◌, ◌↔◌, refl, max, true, List, [], ◌∷◌, take, some, ok, err, ◌>>=◌,
  arith, replicate,
}
use bowst.Prelude.Int.{
  pos, negsuc, cmp, fits, i64_half, i128_half, ◌*ℤ◌, div_euclid, rem_euclid, checked_div_euclid,
  checked_rem_euclid,
}
use bowst.Fixed.{
  FixedError, mantissa_at, pow10, invalid_char, empty, not_multiple, down, up, exact, Decimal,
  pow10_i64, plus_one, round_quotient, compare_decimals,
}
use bowst.Fixed.Parse.{push_digit, count_digit, scan_byte, scan, finish, parse_bytes}
use bowst.Fixed.Parse.Reads.{IsNumber}
use bowst.Fixed.Parse.Accepts.{parse_bytes_lem}
use bowst.Fixed.Write.{Writer, write_to}
use bowst.Fixed.Write.RoundTrip.{parse_bytes-write_to}
use bowst.Fixed.Increment
use bowst.Fixed.Increment.{
  Increment, normalise, factor, rescaled_i64, divide, divide_exactly, to_units, split_point,
  all_zeros, read_digits, read_parts, parse_exact_power_of_ten, parse_units_bytes, from_units,
}
use bowst.Fixed.Increment.Division.{Rounds}
use bowst.Fixed.Increment.Units.{
  IsIncrement, IsDecimal, numerator, denominator, to_units-divide_exactly, to_units_lem,
}
use bowst.Fixed.Increment.Normal.{Normal, new_lem, new-zeros}
use bowst.Fixed.Increment.RoundTrip.{to_units-from_units}
use bowst.Fixed.Increment.Agrees.{parse_units_bytes_lem}
use bowst.Fixed.Order.{at_scale, compare_decimals_lem}

-- "-43251.370".
abbrev text : List ℕ
text = 45 ∷ 52 ∷ 51 ∷ 50 ∷ 53 ∷ 49 ∷ 46 ∷ 51 ∷ 55 ∷ 48 ∷ []

abbrev number : Decimal
number = record { mantissa = negsuc 43251369; scale = 3 }

parses : parse_bytes text ≡ ok number
unfolding parse_bytes scan scan_byte push_digit count_digit finish
parses = refl

-- "1e5", "12.", "" and ".5".
refuses :
    (parse_bytes (49 ∷ 101 ∷ 53 ∷ []) ≡ err (invalid_char 1))
    × (parse_bytes (49 ∷ 50 ∷ 46 ∷ []) ≡ err (invalid_char 2))
    × (parse_bytes [] ≡ err empty)
    × (parse_bytes (46 ∷ 53 ∷ []) ≡ err (invalid_char 0))
unfolding parse_bytes scan scan_byte push_digit count_digit finish
refuses = (refl, refl, refl, refl)

parse_bytes_lem_example : (parse_bytes text ≡ ok number) ↔ IsNumber text number
parse_bytes_lem_example = parse_bytes_lem text number

abbrev buffer : List ℕ
buffer = replicate 42 0

parse_bytes-write_to_example :
    (w : Writer) × (write_to number buffer ≡ ok w) × (parse_bytes (take w.pos w.buf) ≡ ok number)
parse_bytes-write_to_example =
    parse_bytes-write_to number buffer (omega arith) (omega arith) (omega arith) (omega arith)

-- The tick size 0.05.
abbrev tick : Increment
tick = record { mantissa = 5; scale = 2 }

tick-IsIncrement : IsIncrement tick
tick-IsIncrement = record { positive = omega arith; small = omega arith; few = omega arith }

number-IsDecimal : IsDecimal number
number-IsDecimal = record { bounded = refl; few = omega arith }

-- The test value -43251.37 is between two ticks.
rounds :
    (to_units tick number down ≡ ok (negsuc 865027))
    × (to_units tick number up ≡ ok (negsuc 865026))
    × (to_units tick number exact ≡ err not_multiple)
unfolding to_units rescaled_i64 factor pow10_i64 divide checked_div_euclid checked_rem_euclid
    div_euclid rem_euclid round_quotient plus_one ◌*ℤ◌
rounds = (refl, refl, refl)

-- 10^-36 in increments of 1000: at 36 decimal places the increment does not fit in an `i128`.
too_fine :
    to_units (record { mantissa = 1000; scale = 0 }) (record { mantissa = pos 1; scale = 36 }) down
    ≡ err FixedError.overflow
unfolding to_units rescaled_i64 factor pow10_i64 divide_exactly mantissa_at pow10 ◌*ℤ◌
too_fine = refl

to_units-divide_exactly_example : to_units tick number down ≡ divide_exactly tick number down
to_units-divide_exactly_example =
    to_units-divide_exactly tick number down tick-IsIncrement number-IsDecimal

to_units_lem_example : (to_units tick number up ≡ ok (negsuc 865026)) ↔ (
    (fits i128_half (numerator tick number) ≡ true)
    × (denominator tick number < i128_half)
    × (fits i64_half (negsuc 865026) ≡ true)
    × Rounds up (negsuc 865026) (numerator tick number) (denominator tick number))
to_units_lem_example = to_units_lem tick number up (negsuc 865026) tick-IsIncrement number-IsDecimal

new_lem_example :
    (inc : Increment) × (Increment.new (pos 500) 4 ≡ ok inc) × IsIncrement inc × Normal 500 4 inc
new_lem_example = new_lem 500 4 (omega arith) (omega arith) (omega arith)

new-zeros_example : Increment.new (pos (5 * 10 ^ 2)) (2 + 2) ≡ Increment.new (pos 5) 2
new-zeros_example = new-zeros 5 2 2 (omega arith) (omega arith) (omega arith)

to_units-from_units_example : to_units tick (from_units tick (negsuc 41)) exact ≡ ok (negsuc 41)
to_units-from_units_example = to_units-from_units tick (negsuc 41) exact tick-IsIncrement refl

-- The tick size 0.01, and "43251.370".
abbrev cent : Increment
cent = record { mantissa = 1; scale = 2 }

abbrev price : List ℕ
price = 52 ∷ 51 ∷ 50 ∷ 53 ∷ 49 ∷ 46 ∷ 51 ∷ 55 ∷ 48 ∷ []

cent-IsIncrement : IsIncrement cent
cent-IsIncrement = record { positive = omega arith; small = omega arith; few = omega arith }

parses_cents : parse_exact_power_of_ten cent price ≡ some (pos 4325137)
unfolding parse_exact_power_of_ten split_point read_parts all_zeros read_digits pow10_i64 ◌*ℤ◌
parses_cents = refl

parse_units_bytes_lem_example :
    parse_units_bytes cent price exact ≡ (parse_bytes price >>= λ value. to_units cent value exact)
parse_units_bytes_lem_example =
    parse_units_bytes_lem cent price exact cent-IsIncrement (omega arith)

-- 1.5 and 1.50.
compare_decimals_lem_example :
    compare_decimals
      (record { mantissa = pos 15; scale = 1 })
      (record { mantissa = pos 150; scale = 2 })
    ≡ cmp
        (at_scale (record { mantissa = pos 15; scale = 1 }) (max 1 2))
        (at_scale (record { mantissa = pos 150; scale = 2 }) (max 1 2))
compare_decimals_lem_example =
    compare_decimals_lem (record { mantissa = pos 15; scale = 1 })
      (record { mantissa = pos 150; scale = 2 }) (omega arith) (omega arith)
