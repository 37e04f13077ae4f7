-- ===== src/Money/Tests.antt =====
-- Quotes and amounts, with the numbers of the tests of units.rs.
use bowst.Prelude.{◌≡◌, refl, some, none, ok, arith}
use bowst.Prelude.Int.{
  pos, negsuc, ◌*ℤ◌, div_euclid, rem_euclid, checked_div_euclid, checked_rem_euclid, negated,
}
use bowst.Prelude.Euclid.{◌+ℤ◌}
use bowst.Units.{buy, is_more_aggressive}
use bowst.Fixed.{Decimal, pow10_i64, plus_one, round_quotient, compare_decimals, new, multiply}
use bowst.Fixed.Increment.{Increment, rescaled_i64, factor, divide, to_units, from_units}
use bowst.Fixed.Increment.Units.{IsIncrement, IsDecimal}
use bowst.Money.{
  from_dec, to_dec, checked_add, checked_sub, opposite, sign, passive_rounding, notional,
}
use bowst.Money.Quote.{beyond, passive_quote}

-- The tick size 0.01 and the lot step 0.0001.
abbrev tick : Increment
tick = record { mantissa = 1; scale = 2 }

abbrev lot : Increment
lot = record { mantissa = 1; scale = 4 }

tick-IsIncrement : IsIncrement tick
tick-IsIncrement = record { positive = omega arith; small = omega arith; few = omega arith }

-- 100.005.
abbrev fair : Decimal
fair = record { mantissa = pos 100005; scale = 3 }

fair-IsDecimal : IsDecimal fair
fair-IsDecimal = record { bounded = refl; few = omega arith }

bid : from_dec fair tick (passive_rounding buy) ≡ ok (pos 10000)
unfolding from_dec passive_rounding to_units rescaled_i64 factor pow10_i64 divide checked_div_euclid
    checked_rem_euclid div_euclid rem_euclid round_quotient plus_one ◌*ℤ◌
bid = refl

ask : from_dec fair tick (passive_rounding (opposite buy)) ≡ ok (pos 10001)
unfolding from_dec passive_rounding opposite to_units rescaled_i64 factor pow10_i64 divide
    checked_div_euclid checked_rem_euclid div_euclid rem_euclid round_quotient plus_one ◌*ℤ◌
ask = refl

overflows : checked_add (pos 9223372036854775807) (sign buy) ≡ none
unfolding checked_add sign ◌+ℤ◌
overflows = refl

subtracts : checked_sub (pos 5) (pos 7) ≡ some (negsuc 1)
unfolding checked_sub negated ◌+ℤ◌
subtracts = refl

amount :
    notional (pos 4325137) tick (pos 150) lot ≡ ok (record { mantissa = pos 648770550; scale = 6 })
unfolding notional to_dec from_units multiply new ◌*ℤ◌
amount = refl

passive_quote_example :
    beyond buy (compare_decimals (to_dec (pos 10001) tick) fair)
    ≡ is_more_aggressive buy (pos 10001) (pos 10000)
passive_quote_example =
    passive_quote buy tick fair (pos 10000) (pos 10001) tick-IsIncrement fair-IsDecimal bid refl
