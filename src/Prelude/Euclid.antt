-- ===== src/Prelude/Euclid.antt =====
-- Order, sums and Euclidean division of integers.
use bowst.Prelude.{
  ℕ, zero, suc, ◌+◌, ◌-◌, ◌*◌, ◌/◌, ◌%◌, ◌<◌, ◌≤◌, ◌≡◌, refl, compare, compared, less, same, more,
  true, leb, if◌then◌else◌, arith,
}
use native.Mathlib.Nat.{div-add-mod', mod-lt, mul-le-mul_right, add-mul, div-le_self}
use bowst.Prelude.Int.{ℤ, pos, negsuc, neg, ◌*ℤ◌, fits, div_euclid, rem_euclid}

abbrev pub pos_part : ℤ → ℕ
pos_part (pos n) = n
pos_part (negsuc n) = 0

abbrev pub neg_part : ℤ → ℕ
neg_part (pos n) = 0
neg_part (negsuc n) = suc n

infix 50 ◌≤ℤ◌ ◌<ℤ◌
abbrev pub ◌≤ℤ◌ : ℤ → ℤ → Type 0
a ≤ℤ b = pos_part a + neg_part b ≤ pos_part b + neg_part a

abbrev pub ◌<ℤ◌ : ℤ → ℤ → Type 0
a <ℤ b = pos_part a + neg_part b < pos_part b + neg_part a

infixl 65 ◌+ℤ◌
unfoldable pub ◌+ℤ◌ : ℤ → ℤ → ℤ
a +ℤ b =
    let p = pos_part a + pos_part b in
    let n = neg_part a + neg_part b in if leb n p then pos (p - n) else negsuc (n - p - 1)

pub +ℤ_parts :
    (a b : ℤ)
    → pos_part (a +ℤ b) + neg_part a + neg_part b ≡ neg_part (a +ℤ b) + pos_part a + pos_part b
unfolding ◌+ℤ◌
+ℤ_parts a b = ground arith

pub eq_of_parts : (a b : ℤ) → pos_part a + neg_part b ≡ pos_part b + neg_part a → a ≡ b
eq_of_parts a b h = ground arith

pub neg_parts : (n : ℕ) → (pos_part (neg n) ≡ 0) × (neg_part (neg n) ≡ n)
neg_parts zero = (refl, refl)
neg_parts (suc n) = (refl, refl)

-- A product by a natural number, part by part.
pub scaled_parts :
    (a : ℤ) (d : ℕ)
    → (pos_part (a *ℤ pos d) ≡ pos_part a * d) × (neg_part (a *ℤ pos d) ≡ neg_part a * d)
unfolding ◌*ℤ◌
scaled_parts (pos n) d = (refl, omega arith)
scaled_parts (negsuc n) d = let (p, m) = neg_parts (suc n * d) in (omega (arith, p), m)

-- The quotient times the divisor and the remainder make the number.
pub div_euclid_lem :
    (a : ℤ) (d : ℕ)
    → 0 < d
    → (pos_part (div_euclid a d) * d + rem_euclid a d + neg_part a
        ≡ pos_part a + neg_part (div_euclid a d) * d)
      × (rem_euclid a d < d)
unfolding div_euclid rem_euclid
div_euclid_lem (pos n) d h = (omega (arith, div-add-mod' n d), omega (arith, mod-lt n h))
div_euclid_lem (negsuc n) d h =
    let below : n % d < d = mod-lt n h in
    (omega (arith, div-add-mod' n d, add-mul (n / d) 1 d), omega arith)

-- A quotient is nowhere further from zero than the number.
pub fits-div_euclid : (h d : ℕ) (a : ℤ) → 0 < d → fits h a ≡ true → fits h (div_euclid a d) ≡ true
unfolding div_euclid
fits-div_euclid h d (pos n) p e = ground (arith, div-le_self n d)
fits-div_euclid h d (negsuc n) p e = ground (arith, div-le_self n d)

multiple_unique : (p q d s t : ℕ) → s < d → t < d → p * d + s ≡ q * d + t → p ≡ q
multiple_unique p q d s t a b e = elim (compared (compare p q)) [
  | less c ↦
      absurd (omega (arith, mul-le-mul_right {m = p + 1} {n = q} d (ground arith), add-mul p 1 d))
  | same c ↦ ground arith
  | more c ↦
      absurd (omega (arith, mul-le-mul_right {m = q + 1} {n = p} d (ground arith), add-mul q 1 d))
]

-- Only one integer `q` has `q * d` in the `d` places up to a number.
pub euclid_unique :
    (q r : ℤ) (d s t : ℕ)
    → s < d
    → t < d
    → pos_part q * d + s + neg_part r * d ≡ pos_part r * d + t + neg_part q * d
    → q ≡ r
euclid_unique q r d s t a b e =
    let n : pos_part q + neg_part r ≡ pos_part r + neg_part q =
      multiple_unique (pos_part q + neg_part r) (pos_part r + neg_part q) d s t a b
        (omega (arith, add-mul (pos_part q) (neg_part r) d, add-mul (pos_part r) (neg_part q) d)) in
    eq_of_parts q r n
