-- ===== src/Ids.antt =====
-- Client order ids and their text, crates/bowst-core/src/ids.rs. Text is a list of byte codes.
pub mod Hex
pub mod Text
mod Tests
use bowst.Prelude.{
  ℕ, zero, suc, ◌+◌, ◌*◌, ◌/◌, ◌%◌, Bool, true, false, not, ◌&&◌, ◌||◌, Option, none, some, List,
  [], ◌∷◌, ◌++◌, reverse, ◌-◌, length, get_elem?, take, drop, ltb, leb, ◌==◌, if◌then◌else◌,
  u32_max,
}

pub data VenueId : Type 0 where
  binance bybit : VenueId

abbrev pub code : VenueId → ℕ
code binance = 1
code bybit = 2

-- `PREFIX` and `HEX`.
abbrev pub prefix : List ℕ
prefix = 98 ∷ 119 ∷ []

abbrev pub hex : List ℕ
hex = 48 ∷ 49 ∷ 50 ∷ 51 ∷ 52 ∷ 53 ∷ 54 ∷ 55 ∷ 56 ∷ 57 ∷ 97 ∷ 98 ∷ 99 ∷ 100 ∷ 101 ∷ 102 ∷ []

abbrev pub hex_digits : ℕ
hex_digits = 16

pub record ClientOrderId : Type 0 where
  pub session : ℕ
  pub sequence : ℕ

unfoldable pub hex_digit : ℕ → ℕ
hex_digit d = elim (get_elem? hex d) [ some b ↦ b | none ↦ 48 ]

-- The loop of `write_hex`, which runs over the slots from the last one.
unfoldable pub nibbles : ℕ → ℕ → List ℕ
nibbles zero rest = []
nibbles (suc n) rest = hex_digit (rest % 256 % 16) ∷ nibbles n (rest / 16)

abbrev pub write_hex : ℕ → ℕ → List ℕ
write_hex value slots = reverse (nibbles slots value)

unfoldable pub encode : ClientOrderId → List ℕ
encode id = prefix ++ (write_hex id.session 8 ++ write_hex id.sequence 8)

-- `strip_prefix` with the two bytes of the prefix.
abbrev pub strip_prefix : List ℕ → Option (List ℕ)
strip_prefix [] = none
strip_prefix (a ∷ []) = none
strip_prefix (a ∷ b ∷ rest) = if (a == 98) && (b == 119) then some rest else none

-- `HEX.contains(&b)`, and `all`.
abbrev pub contains : List ℕ → ℕ → Bool
contains [] b = false
contains (x ∷ xs) b = if x == b then true else contains xs b

abbrev pub all_hex : List ℕ → Bool
all_hex [] = true
all_hex (b ∷ bs) = contains hex b && all_hex bs

-- A digit of the standard library's `from_str_radix` in base 16.
unfoldable pub digit_value : ℕ → Option ℕ
digit_value b =
    if leb 48 b && leb b 57
    then some (b - 48)
    else if leb 97 b && leb b 102
    then some (b - 87)
    else if leb 65 b && leb b 70
    then some (b - 55)
    else none

-- `u32::from_str_radix` in base 16, on digits.
unfoldable pub parse_hex : ℕ → List ℕ → Option ℕ
parse_hex acc [] = some acc
parse_hex acc (b ∷ bs) = elim (digit_value b) [
  | none ↦ none
  | some d ↦ elim (leb (acc * 16 + d) u32_max) [ true ↦ parse_hex (acc * 16 + d) bs | false ↦ none ]
]

-- The digits after the prefix, eight for each part.
unfoldable pub read_parts : List ℕ → Option ClientOrderId
read_parts digits = elim (parse_hex 0 (take 8 digits)) [
  | none ↦ none
  | some session ↦ elim (parse_hex 0 (drop 8 digits)) [
    | none ↦ none
    | some sequence ↦ some (record { session = session; sequence = sequence })
  ]
]

unfoldable pub decode : List ℕ → Option ClientOrderId
decode text = elim (strip_prefix text) [
  | none ↦ none
  | some digits ↦
      if not (length digits == hex_digits) || not (all_hex digits) then none else read_parts digits
]

pub record ClientOrderIdGen : Type 0 where
  pub session : ℕ
  pub upcoming : Option ℕ

abbrev pub new_gen : ℕ → ClientOrderIdGen
new_gen session = record { session = session; upcoming = some 0 }

unfoldable pub next_id : ClientOrderIdGen → ClientOrderIdGen × Option ClientOrderId
next_id g = elim g.upcoming [
  | none ↦ (g, none)
  | some n ↦ (
    record g { upcoming = if ltb n u32_max then some (n + 1) else none },
    some (record { session = g.session; sequence = n }),
  )
]
