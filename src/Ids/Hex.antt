-- ===== src/Ids/Hex.antt =====
-- Hexadecimal digits there and back.
use bowst.Prelude.{
  ℕ, zero, suc, ◌+◌, ◌*◌, ◌/◌, ◌%◌, ◌^◌, ◌<◌, ◌≤◌, ◌≡◌, refl, sym, ap, ◌∙◌, subst, Bool, true,
  false, ◌&&◌, Bool-cases, inl, inr, Option, none, some, Option-cases, List, [], ◌∷◌, ◌++◌, reverse,
  ltb, leb, ◌==◌, if◌then◌else◌, u32_max, arith,
}
use mathlib.Core.List.{reverse-append}
use native.Mathlib.Nat.{pow-succ'}
use bowst.Ids.{hex, hex_digit, nibbles, contains, digit_value, parse_hex}

-- A test that holds of all numbers below a bound.
unfoldable holds_below : (ℕ → Bool) → ℕ → Bool
holds_below t zero = true
holds_below t (suc n) = t n && holds_below t n

holds_below_lem : (t : ℕ → Bool) (n i : ℕ) → holds_below t n ≡ true → i < n → t i ≡ true
unfolding holds_below
holds_below_lem t zero i e h = absurd (omega arith)
holds_below_lem t (suc n) i e h = elim (Bool-cases (leb n i)) [
  | inl last ↦ let same : n ≡ i = ground arith in subst (λ k. t k ≡ true) same (ground arith)
  | inr before ↦ holds_below_lem t n i (ground arith) (ground arith)
]

abbrev reads_back : ℕ → Bool
reads_back d = elim (digit_value (hex_digit d)) [ some v ↦ v == d | none ↦ false ]

pub digit_value-hex_digit : (d : ℕ) → d < 16 → digit_value (hex_digit d) ≡ some d
unfolding holds_below digit_value hex_digit
digit_value-hex_digit d h = let t = holds_below_lem reads_back 16 d table h in ground (arith, t)
  where
    table : holds_below reads_back 16 ≡ true
    table = refl

-- What a run of digits is worth after another.
and_then : Option ℕ → List ℕ → Option ℕ
and_then none ys = none
and_then (some a) ys = parse_hex a ys

parse_hex-append :
    (acc : ℕ) (xs ys : List ℕ) → parse_hex acc (xs ++ ys) ≡ and_then (parse_hex acc xs) ys
unfolding parse_hex and_then
parse_hex-append acc [] ys = refl
parse_hex-append acc (x ∷ xs) ys = elim (Option-cases (digit_value x)) [
  | inl e ↦ rw (e, parse_hex) refl
  | inr (d, e) ↦ ground (arith, e, parse_hex-append (acc * 16 + d) xs ys)
]

-- Digits that were written read back as the value, if it fits in the digits and in 32 bits.
pub parse_hex-nibbles :
    (n v : ℕ) → v < 16 ^ n → v ≤ u32_max → parse_hex 0 (reverse (nibbles n v)) ≡ some v
unfolding nibbles parse_hex and_then
parse_hex-nibbles zero v h w = ground arith
parse_hex-nibbles (suc n) v h w =
    let low : v % 256 % 16 ≡ v % 16 = omega arith in
    let ih = parse_hex-nibbles n (v / 16) (omega (arith, pow-succ' 16 n)) (omega arith) in
    let digit = digit_value-hex_digit (v % 16) (omega arith) in
    let back : v / 16 * 16 + v % 16 ≡ v = omega arith in
    let fits : leb v u32_max ≡ true = ground arith in
    rw
      (
        reverse-append (hex_digit (v % 256 % 16) ∷ []) (nibbles n (v / 16)),
        parse_hex-append 0 (reverse (nibbles n (v / 16))) (hex_digit (v % 256 % 16) ∷ []),
        ih,
        low,
      )
      (rw (digit, parse_hex) (rw (back, fits) (ap some back)))

-- A digit of the alphabet is the one that is written for its value.
abbrev is_own : ℕ → Bool
is_own b =
    if contains hex b
    then (elim (digit_value b) [ some d ↦ (hex_digit d == b) && ltb d 16 | none ↦ false ])
    else true

pub hex_digit-digit_value :
    (b d : ℕ) → contains hex b ≡ true → digit_value b ≡ some d → (hex_digit d ≡ b) × (d < 16)
unfolding holds_below digit_value hex_digit
hex_digit-digit_value b d h e =
    let small : b < 103 = ground arith in
    let t = holds_below_lem is_own 103 b table small in ground (arith, t)
  where
    table : holds_below is_own 103 ≡ true
    table = refl

pub contains-hex_digit : (d : ℕ) → d < 16 → contains hex (hex_digit d) ≡ true
unfolding holds_below hex_digit
contains-hex_digit d h = holds_below_lem (λ d. contains hex (hex_digit d)) 16 d table h
  where
    table : holds_below (λ d. contains hex (hex_digit d)) 16 ≡ true
    table = refl

-- The last digit is worth itself, and those before it sixteen times what they are worth.
pub parse_hex-last :
    (xs : List ℕ) (c v : ℕ)
    → parse_hex 0 (xs ++ (c ∷ [])) ≡ some v
    → (a d : ℕ) × (parse_hex 0 xs ≡ some a) × (digit_value c ≡ some d) × (v ≡ a * 16 + d)
unfolding and_then parse_hex
parse_hex-last xs c v e = split (parse_hex 0 xs) refl (sym (parse_hex-append 0 xs (c ∷ [])) ∙ e)
  where
    last :
        (a : ℕ) (o : Option ℕ)
        → digit_value c ≡ o
        → parse_hex a (c ∷ []) ≡ some v
        → (d : ℕ) × (digit_value c ≡ some d) × (v ≡ a * 16 + d)
    last a none g h = absurd (ground arith)
    last a (some d) g h = (d, g, ground arith)

    split :
        (o : Option ℕ)
        → parse_hex 0 xs ≡ o
        → and_then o (c ∷ []) ≡ some v
        → (a d : ℕ) × (parse_hex 0 xs ≡ some a) × (digit_value c ≡ some d) × (v ≡ a * 16 + d)
    split none g h = absurd (ground arith)
    split (some a) g h = let (d, k, s) = last a (digit_value c) refl h in (a, d, g, k, s)
