-- ===== src/Levels.antt =====
-- Price levels of venue messages, crates/bowst-venue/src/levels.rs. The loop over an array runs on fuel
-- and is `none` without it.
mod Tests
use bowst.Prelude.{
  ℕ, zero, suc, Bool, true, false, Option, some, none, List, [], ◌∷◌, ◌++◌, length, leb,
  if◌then◌else◌, Result, ok, err, ◌>>=◌,
}
use bowst.Prelude.Int.{ℤ}
use bowst.Units.{Side}
use bowst.Ladder.{Level}
use bowst.Book.{LevelUpdate}
use bowst.Fixed.{FixedError, exact}
use bowst.Fixed.Increment.{Increment, parse_units_bytes}
use bowst.Json.{JsonError, Reader, begin_array, next_element, str_bytes}
use bowst.Json.Skip.{◌>?◌}

-- The name of a field, a text of the source, as its bytes.
abbrev pub Field : Type 0
Field = List ℕ

abbrev pub price_field : Field
price_field = 112 ∷ 114 ∷ 105 ∷ 99 ∷ 101 ∷ []

abbrev pub qty_field : Field
qty_field = 113 ∷ 116 ∷ 121 ∷ []

abbrev pub level_field : Field
level_field = 108 ∷ 101 ∷ 118 ∷ 101 ∷ 108 ∷ []

-- A symbol of crates/bowst-core/src/instrument.rs: 24 bytes, and how many of them are used.
pub record Symbol : Type 0 where
  pub bytes : List ℕ
  pub len : ℕ

pub data DecodeError : Type 0 where
  json : JsonError → DecodeError
  missing_field : Field → DecodeError
  unexpected_value : Field → DecodeError
  unknown_symbol : Option Symbol → DecodeError
  invalid_sequence : ℕ → ℕ → DecodeError
  invalid_number : Field → FixedError → DecodeError
  too_many_levels : ℕ → DecodeError

-- The operator `?` on a JSON error.
abbrev pub from_json : {A : Type 0} → Result A JsonError → Result A DecodeError
from_json (ok a) = ok a
from_json (err e) = err (json e)

unfoldable pub exact_units : List ℕ → Increment → Field → Result ℤ DecodeError
exact_units text increment field = elim (parse_units_bytes increment text exact) [
  | ok units ↦ ok units
  | err e ↦ err (invalid_number field e)
]

unfoldable pub more_elements : Reader → Result Reader DecodeError
more_elements r = do
  (more, r') ← from_json (next_element r)
  if more then ok r' else err (unexpected_value level_field)

unfoldable pub read_level : Reader → Increment → Increment → Result (Level × Reader) DecodeError
read_level r tick lot = do
  r0 ← from_json (begin_array r)
  r1 ← more_elements r0
  (text, r2) ← from_json (str_bytes r1)
  price ← exact_units text tick price_field
  r3 ← more_elements r2
  (text', r4) ← from_json (str_bytes r3)
  qty ← exact_units text' lot qty_field
  (more, r5) ← from_json (next_element r4)
  if more then err (unexpected_value level_field) else ok (record { price = price; qty = qty }, r5)

-- The loops of `read_levels_into` and `read_updates_into`, with what is made of a level.
unfoldable pub read_elements :
    {A : Type 0}
    → (Level → A)
    → Increment
    → Increment
    → ℕ
    → ℕ
    → Reader
    → List A
    → Option (Result (List A × Reader) DecodeError)
read_elements of tick lot limit zero r out = none
read_elements of tick lot limit (suc fuel) r out =
    let rest = read_elements of tick lot limit fuel in
    from_json (next_element r) >? λ (more, r').
    if more
    then (if leb limit (length out)
        then some (err (too_many_levels limit))
        else (read_level r' tick lot >? λ (l, r''). rest r'' (out ++ (of l ∷ []))))
    else some (ok (out, r'))

unfoldable pub read_levels_into :
    ℕ
    → Reader
    → Increment
    → Increment
    → ℕ
    → List Level
    → Option (Result (List Level × Reader) DecodeError)
read_levels_into fuel r tick lot limit out =
    from_json (begin_array r) >? λ r'. read_elements (λ l. l) tick lot limit fuel r' out

unfoldable pub read_updates_into :
    ℕ
    → Reader
    → Side
    → Increment
    → Increment
    → ℕ
    → List LevelUpdate
    → Option (Result (List LevelUpdate × Reader) DecodeError)
read_updates_into fuel r side tick lot limit out = from_json (begin_array r) >? λ r'.
    read_elements (λ l. record { side = side; price = l.price; qty = l.qty }) tick lot limit fuel r'
      out
