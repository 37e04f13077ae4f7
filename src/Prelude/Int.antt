-- ===== src/Prelude/Int.antt =====
-- Signed integers over the native numbers, under the library's names, for the source's `i64` and
-- `i128` values.
use bowst.Prelude.{
  ℕ, zero, suc, ◌-◌, ◌*◌, ◌/◌, ◌%◌, ◌^◌, compare, Ordering, ◌≡◌, Bool, ltb, if◌then◌else◌, Option,
  none, some, arith,
}

-- `negsuc n` is -(n + 1).
pub data ℤ : Type 0 where
  pos : ℕ → ℤ
  negsuc : ℕ → ℤ

abbrev pub cmp : ℤ → ℤ → Ordering
cmp (pos a) (pos b) = compare a b
cmp (pos a) (negsuc b) = Ordering.gt
cmp (negsuc a) (pos b) = Ordering.lt
cmp (negsuc a) (negsuc b) = compare b a

pub cmp_refl : (a : ℤ) → cmp a a ≡ Ordering.eq
cmp_refl a = ground arith

pub eq_of_cmp : (a b : ℤ) → cmp a b ≡ Ordering.eq → a ≡ b
eq_of_cmp a b h = ground arith

pub cmp_swap_gt : (a b : ℤ) → cmp a b ≡ Ordering.gt → cmp b a ≡ Ordering.lt
cmp_swap_gt a b h = ground arith

pub cmp_swap_lt : (a b : ℤ) → cmp a b ≡ Ordering.lt → cmp b a ≡ Ordering.gt
cmp_swap_lt a b h = ground arith

pub cmp_trans : (a b c : ℤ) → cmp a b ≡ Ordering.lt → cmp b c ≡ Ordering.lt → cmp a c ≡ Ordering.lt
cmp_trans a b c h k = ground arith

-- -n.
abbrev pub neg : ℕ → ℤ
neg zero = pos 0
neg (suc n) = negsuc n

infixl 70 ◌*ℤ◌
unfoldable pub ◌*ℤ◌ : ℤ → ℤ → ℤ
pos a *ℤ pos b = pos (a * b)
pos a *ℤ negsuc b = neg (a * suc b)
negsuc a *ℤ pos b = neg (suc a * b)
negsuc a *ℤ negsuc b = pos (suc a * suc b)

-- Whether a value fits in a signed integer from -h to h - 1.
abbrev pub fits : ℕ → ℤ → Bool
fits h (pos n) = ltb n h
fits h (negsuc n) = ltb n h

abbrev pub i64_half : ℕ
i64_half = 2 ^ 63

abbrev pub i128_half : ℕ
i128_half = 2 ^ 127

-- A checked operation: its exact result, if that fits.
abbrev pub checked : ℕ → ℤ → Option ℤ
checked h a = if fits h a then some a else none

-- `checked_mul`.
abbrev pub checked_mul : ℕ → ℤ → ℤ → Option ℤ
checked_mul h a b = checked h (a *ℤ b)

-- `div_euclid` and `rem_euclid` by a positive number: -(n + 1) is -(n / d + 1) * d and the rest.
unfoldable pub div_euclid : ℤ → ℕ → ℤ
div_euclid (pos n) d = pos (n / d)
div_euclid (negsuc n) d = negsuc (n / d)

unfoldable pub rem_euclid : ℤ → ℕ → ℕ
rem_euclid (pos n) d = n % d
rem_euclid (negsuc n) d = d - 1 - n % d

-- `checked_div_euclid` and `checked_rem_euclid`; the quotient by -d is the opposite of that by d.
unfoldable pub negated : ℤ → ℤ
negated (pos n) = neg n
negated (negsuc n) = pos (suc n)

unfoldable pub checked_div_euclid : ℕ → ℤ → ℤ → Option ℤ
checked_div_euclid h a (pos zero) = none
checked_div_euclid h a (pos (suc d)) = checked h (div_euclid a (suc d))
checked_div_euclid h a (negsuc d) = checked h (negated (div_euclid a (suc d)))

unfoldable pub checked_rem_euclid : ℕ → ℤ → ℤ → Option ℕ
checked_rem_euclid h a (pos zero) = none
checked_rem_euclid h a (pos (suc d)) = some (rem_euclid a (suc d))
checked_rem_euclid h a (negsuc d) =
    if fits h (negated (div_euclid a (suc d))) then some (rem_euclid a (suc d)) else none

-- A saturating operation: its exact result, or the bound of the type on its side.
abbrev pub saturated : ℕ → ℤ → ℤ
saturated h a = if fits h a then a else elim a [ pos n ↦ pos (h - 1) | negsuc n ↦ negsuc (h - 1) ]
