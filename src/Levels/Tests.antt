-- ===== src/Levels/Tests.antt =====
-- Arrays of levels, with the numbers of the tests of levels.rs.
use bowst.Prelude.{ℕ, ◌≡◌, refl, true, List, [], ◌∷◌, some, ok, err, slice?}
use bowst.Prelude.Int.{pos, ◌*ℤ◌}
use bowst.Units.{sell}
use bowst.Fixed.{pow10_i64}
use bowst.Fixed.Increment.{
  Increment, parse_units_bytes, parse_exact_power_of_ten, split_point, read_parts, all_zeros,
  read_digits,
}
use bowst.Json.{
  new, peek, advance, pass, skip_whitespace, expect_byte, enter, leave, next_member, position,
  string_end, quoted, str_bytes, begin_array, next_element,
}
use bowst.Levels.{
  too_many_levels, exact_units, more_elements, read_level, read_elements, read_levels_into,
  read_updates_into,
}

-- The tick size 0.01 and the lot step 1.
abbrev tick : Increment
tick = record { mantissa = 1; scale = 2 }

abbrev lot : Increment
lot = record { mantissa = 1; scale = 0 }

-- `[["0.01","0"]]`.
abbrev one_level : List ℕ
one_level = 91 ∷ 91 ∷ 34 ∷ 48 ∷ 46 ∷ 48 ∷ 49 ∷ 34 ∷ 44 ∷ 34 ∷ 48 ∷ 34 ∷ 93 ∷ 93 ∷ []

reads :
    read_levels_into 14 (new one_level) tick lot 4 []
    ≡ some (
        ok (
          record { price = pos 1; qty = pos 0 } ∷ [],
          record { buf = one_level; pos = 14; depth = 0; after_value = true },
        ))
unfolding read_levels_into read_elements read_level more_elements exact_units new begin_array enter
    expect_byte skip_whitespace pass peek advance next_element next_member leave str_bytes quoted
    string_end position slice? parse_units_bytes parse_exact_power_of_ten split_point read_parts
    all_zeros read_digits pow10_i64 ◌*ℤ◌
reads = refl

limited : read_updates_into 14 (new one_level) sell tick lot 0 [] ≡ some (err (too_many_levels 0))
unfolding read_updates_into read_elements new begin_array enter expect_byte skip_whitespace pass
    peek advance next_element next_member
limited = refl
