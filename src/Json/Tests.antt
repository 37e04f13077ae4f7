-- ===== src/Json/Tests.antt =====
-- Messages as a venue sends them.
use bowst.Prelude.{ℕ, ◌≡◌, ◌⊎◌, refl, true, false, List, [], ◌∷◌, some, ok, err, arith}
use bowst.Json.{
  has_key, Reader, JsonError, escaped_string, invalid_integer, new, peek, advance, pass,
  skip_whitespace, expect_byte, enter, leave, next_member, position, string_end, quoted, str,
  str_bytes, begin_object, next_key, begin_array, next_element, read_digits, u64, literal,
  same_bytes,
}
use bowst.Json.Skip.{
  string_rest, skip_string, skip_number, skip_literal, skip_members, kind_of, skip_value, skip,
}
use bowst.Json.Utf8.{goes_on, is_utf8}
use bowst.Json.Progress.{Inside, Ahead}
use bowst.Json.Skip.Ends.{skip_lem}
use bowst.Prelude.{slice?}

-- ` {"a":[1,"\""],"b":null}`.
abbrev message : List ℕ
message =
    32 ∷ 123 ∷ 34 ∷ 97 ∷ 34 ∷ 58 ∷ 91 ∷ 49 ∷ 44 ∷ 34 ∷ 92 ∷ 34 ∷ 34 ∷ 93 ∷ 44 ∷ 34 ∷ 98 ∷ 34 ∷ 58
    ∷ 110 ∷ 117 ∷ 108 ∷ 108 ∷ 125 ∷ []

abbrev reader : Reader
reader = record { buf = message; pos = 0; depth = 0; after_value = false }

reader-Inside : Inside reader
reader-Inside = record { within = omega arith; small = omega arith }

skips :
    skip 25 reader ≡ some (ok (record { buf = message; pos = 24; depth = 0; after_value = true }))
unfolding skip skip_value skip_whitespace pass peek kind_of begin_object enter expect_byte advance
    skip_members has_key next_key next_member str quoted string_end position slice? is_utf8 goes_on
    begin_array next_element leave skip_number skip_string string_rest skip_literal literal
    same_bytes
skips = refl

-- `18446744073709551616` and `01`.
refuses :
    (u64 (
        new (
          49 ∷ 56 ∷ 52 ∷ 52 ∷ 54 ∷ 55 ∷ 52 ∷ 52 ∷ 48 ∷ 55 ∷ 51 ∷ 55 ∷ 48 ∷ 57 ∷ 53 ∷ 53 ∷ 49 ∷ 54
          ∷ 49 ∷ 54 ∷ []))
      ≡ err (invalid_integer 0))
    × (u64 (new (48 ∷ 49 ∷ [])) ≡ err (invalid_integer 0))
unfolding u64 new skip_whitespace pass read_digits
refuses = (refl, refl)

-- `"a\n"`, with an escape.
escaped : str_bytes (new (34 ∷ 97 ∷ 92 ∷ 110 ∷ 34 ∷ [])) ≡ err (escaped_string 2)
unfolding str_bytes quoted expect_byte new skip_whitespace pass peek advance string_end position
escaped = refl

-- The smallest character of three bytes is UTF-8, a longer form of it is not.
characters :
    (is_utf8 (224 ∷ 160 ∷ 128 ∷ []) ≡ true) × (is_utf8 (240 ∷ 128 ∷ 160 ∷ 128 ∷ []) ≡ false)
unfolding is_utf8 goes_on
characters = (refl, refl)

skip_lem_example :
    ((e : JsonError) × (skip 25 reader ≡ some (err e)))
    ⊎ ((r' : Reader) × (skip 25 reader ≡ some (ok r')) × Ahead reader 1 0 true r')
skip_lem_example = skip_lem reader 25 reader-Inside (omega arith)
