-- ===== src/Json/Utf8.antt =====
-- UTF-8, as `core::str::from_utf8` checks it for crates/bowst-venue/src/json.rs.
use bowst.Prelude.{
  ℕ, Bool, true, false, ◌&&◌, Option, some, none, List, [], ◌∷◌, ltb, leb, ◌==◌, if◌then◌else◌,
}

abbrev tail_byte : ℕ × ℕ
tail_byte = (128, 191)

-- The ranges of the bytes that follow a first byte.
abbrev following : ℕ → Option (List (ℕ × ℕ))
following b =
    if ltb b 128
    then some []
    else if leb 194 b && leb b 223
    then some (tail_byte ∷ [])
    else if b == 224
    then some ((160, 191) ∷ tail_byte ∷ [])
    else if b == 237
    then some ((128, 159) ∷ tail_byte ∷ [])
    else if leb 225 b && leb b 239
    then some (tail_byte ∷ tail_byte ∷ [])
    else if b == 240
    then some ((144, 191) ∷ tail_byte ∷ tail_byte ∷ [])
    else if leb 241 b && leb b 243
    then some (tail_byte ∷ tail_byte ∷ tail_byte ∷ [])
    else if b == 244
    then some ((128, 143) ∷ tail_byte ∷ tail_byte ∷ [])
    else none

-- Whether bytes go on with some in the given ranges and then with whole characters.
unfoldable pub goes_on : List (ℕ × ℕ) → List ℕ → Bool
goes_on [] [] = true
goes_on (range ∷ ranges) [] = false
goes_on ((low, high) ∷ ranges) (b ∷ bytes) = leb low b && leb b high && goes_on ranges bytes
goes_on [] (b ∷ bytes) = elim (following b) [ none ↦ false | some ranges ↦ goes_on ranges bytes ]

unfoldable pub is_utf8 : List ℕ → Bool
is_utf8 bytes = goes_on [] bytes
