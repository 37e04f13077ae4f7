-- ===== src/Fixed/Parse.antt =====
-- `Dec::parse_bytes`. The loop over the bytes is a recursion on them.
pub mod Value
pub mod Reads
pub mod Accepts
use bowst.Prelude.{
  ℕ, zero, suc, ◌+◌, ◌-◌, ◌*◌, min, Bool, true, false, not, ◌&&◌, Option, some, none, List, [], ◌∷◌,
  length, ltb, leb, ◌==◌, if◌then◌else◌, u64_max, sat_add, Result, ok, err, ◌>>=◌, ok_or,
}
use bowst.Prelude.Int.{ℤ, pos, neg, checked, i128_half}
use bowst.Fixed.{
  max_parse_scale, FixedError, empty, invalid_char, too_many_decimals, overflow, accumulate,
  Decimal,
}

-- The variables of the loop. The value that is read is never negative.
pub record Scan : Type 0 where
  pub small : ℕ
  pub big : Option ℕ
  pub scale : ℕ
  pub seen_point : Bool
  pub int_digits : ℕ

abbrev pub is_digit : ℕ → Bool
is_digit byte = leb 48 byte && leb byte 57

-- `match big`, for a digit.
unfoldable pub push_digit : Scan → ℕ → Result Scan FixedError
push_digit s digit = elim s.big [
  | none ↦
      if leb (s.small * 10) u64_max && leb (s.small * 10 + digit) u64_max
      then ok (record s { small = s.small * 10 + digit })
      else (do value ← accumulate s.small digit; ok (record s { big = some value }))
  | some value ↦ do next ← accumulate value digit; ok (record s { big = some next })
]

-- `saturating_add(1)` on `u8`.
abbrev pub next_scale : ℕ → ℕ
next_scale scale = min (scale + 1) 255

unfoldable pub count_digit : Scan → Result Scan FixedError
count_digit s =
    if s.seen_point
    then (if ltb max_parse_scale (next_scale s.scale)
        then err too_many_decimals
        else ok (record s { scale = next_scale s.scale }))
    else ok (record s { int_digits = sat_add s.int_digits 1 })

unfoldable pub scan_byte : Scan → ℕ → ℕ → Result Scan FixedError
scan_byte s at byte =
    if is_digit byte
    then (do pushed ← push_digit s (byte - 48); count_digit pushed)
    else if byte == 46 && (not s.seen_point && ltb 0 s.int_digits)
    then ok (record s { seen_point = true })
    else err (invalid_char at)

unfoldable pub scan : Scan → ℕ → List ℕ → Result Scan FixedError
scan s at [] = ok s
scan s at (byte ∷ bytes) = do next ← scan_byte s at byte; scan next (at + 1) bytes

abbrev pub start : Scan
start = record { small = 0; big = none; scale = 0; seen_point = false; int_digits = 0 }

-- `big.unwrap_or(small)`.
abbrev pub total : Scan → ℕ
total s = elim s.big [ none ↦ s.small | some value ↦ value ]

-- What follows the loop, for a text of the given length.
unfoldable pub finish : Bool → ℕ → Scan → Result Decimal FixedError
finish negative len s =
    if s.int_digits == 0
    then err empty
    else if s.seen_point && s.scale == 0
    then err (invalid_char (len - 1))
    else if negative
    then (do
      mantissa ← ok_or (checked i128_half (neg (total s))) overflow
      ok (record { mantissa = mantissa; scale = s.scale }))
    else ok (record { mantissa = pos (total s); scale = s.scale })

unfoldable pub parse_bytes : List ℕ → Result Decimal FixedError
parse_bytes [] = err empty
parse_bytes (first ∷ rest) =
    if first == 45
    then (do s ← scan start 1 rest; finish true (length (first ∷ rest)) s)
    else (do s ← scan start 0 (first ∷ rest); finish false (length (first ∷ rest)) s)
