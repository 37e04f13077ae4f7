-- ===== src/Fixed/Order.antt =====
-- The order of decimal numbers is that of their values.
use bowst.Prelude.{
  ℕ, ◌+◌, ◌-◌, ◌*◌, ◌^◌, ◌<◌, ◌≤◌, ◌≡◌, refl, sym, ap, ap₂, ◌∙◌, max, compare, Ordering, compared,
  less, same, more, true, Bool-cases, inl, inr, ltb, ◌==◌, arith,
}
use native.Mathlib.Nat.{
  pow-le-pow_right, mul_assoc, mul-lt-mul_of_pos_right, mul-le-mul_right, add-mul,
}
use bowst.Prelude.Int.{ℤ, pos, cmp, cmp_refl, ◌*ℤ◌, div_euclid, rem_euclid}
use bowst.Prelude.Euclid.{pos_part, neg_part, ◌<ℤ◌, scaled_parts, div_euclid_lem, eq_of_parts}
use bowst.Fixed.Powers.{pow-add, pow-pos, scaled_one}
use bowst.Fixed.{Decimal, unit_at, split, rescale, then_with, compare_decimals}

cmp_lt : (a b : ℤ) → a <ℤ b → cmp a b ≡ Ordering.lt
cmp_lt a b h = ground arith

cmp_gt : (a b : ℤ) → b <ℤ a → cmp a b ≡ Ordering.gt
cmp_gt a b h = ground arith

lt_cmp : (a b : ℤ) → cmp a b ≡ Ordering.lt → a <ℤ b
lt_cmp a b h = ground arith

gt_cmp : (a b : ℤ) → cmp a b ≡ Ordering.gt → b <ℤ a
gt_cmp a b h = ground arith

eq_cmp : (a b : ℤ) → cmp a b ≡ Ordering.eq → a ≡ b
eq_cmp a b h = ground arith

-- With a common divisor, quotients decide before remainders.
abbrev IsSum : ℤ → ℤ → ℕ → ℕ → Type 0
IsSum x q d s = pos_part q * d + s + neg_part x ≡ pos_part x + neg_part q * d

cmp_sums :
    (x y q r : ℤ) (d s t : ℕ)
    → IsSum x q d s
    → IsSum y r d t
    → s < d
    → t < d
    → cmp x y ≡ then_with (cmp q r) (compare s t)
cmp_sums x y q r d s t a b small small' = elim (compared (cmp q r)) [
  | less c ↦ rw c (
      cmp_lt x y (
        omega (
          arith,
          mul-le-mul_right {m = pos_part q + neg_part r + 1} {n = pos_part r + neg_part q} d
              (omega (arith, lt_cmp q r c)),
          add-mul (pos_part q + neg_part r) 1 d,
          add-mul (pos_part q) (neg_part r) d,
          add-mul (pos_part r) (neg_part q) d,
        )))
  | more c ↦ rw c (
      cmp_gt x y (
        omega (
          arith,
          mul-le-mul_right {m = pos_part r + neg_part q + 1} {n = pos_part q + neg_part r} d
              (omega (arith, gt_cmp q r c)),
          add-mul (pos_part r + neg_part q) 1 d,
          add-mul (pos_part q) (neg_part r) d,
          add-mul (pos_part r) (neg_part q) d,
        )))
  | same c ↦ rw c (rest (eq_cmp q r c))
]
  where
    rest : q ≡ r → cmp x y ≡ compare s t
    rest e =
        let p = ap (λ a. pos_part a * d) e in
        let n = ap (λ a. neg_part a * d) e in
        elim (compared (compare s t)) [
          | less o ↦ let lt : s < t = ground arith in rw o (cmp_lt x y (omega (arith, p, n, lt)))
          | same o ↦
              let eq : s ≡ t = ground arith in
              rw o (rw (eq_of_parts x y (omega (arith, p, n, eq))) (cmp_refl y))
          | more o ↦ let gt : t < s = ground arith in rw o (cmp_gt x y (omega (arith, p, n, gt)))
        ]

-- A decimal number at a scale that is not smaller: the quotient by its unit, and the fraction.
abbrev pub at_scale : Decimal → ℕ → ℤ
at_scale a scale = a.mantissa *ℤ pos (10 ^ (scale - a.scale))

unit_at_lem : (n : ℕ) → n ≤ 36 → unit_at n ≡ 10 ^ n
unfolding unit_at
unit_at_lem n h = let t : ltb n 39 ≡ true = ground arith in rw t refl

module _ (a : Decimal) (c : ℕ) (le : a.scale ≤ c) (most : c ≤ 36) where
  whole : 10 ^ c ≡ 10 ^ a.scale * 10 ^ (c - a.scale)
  whole =
      let e : c ≡ a.scale + (c - a.scale) = omega (arith, le) in
      ap (λ n. 10 ^ n) e ∙ pow-add a.scale (c - a.scale)

  fraction-lt : (split a).1 < 10 ^ a.scale
  unfolding split
  fraction-lt =
      rw (unit_at_lem a.scale (omega (arith, le, most)))
        (div_euclid_lem a.mantissa (10 ^ a.scale) (pow-pos a.scale)).1

  rescaled-lt : (split a).1 * 10 ^ (c - a.scale) < 10 ^ c
  rescaled-lt = omega (
    arith,
    mul-lt-mul_of_pos_right {m = (split a).1} {n = 10 ^ a.scale} {k = 10 ^ (c - a.scale)}
        fraction-lt (pow-pos (c - a.scale)),
    whole,
  )

  rescale_lem : rescale c (split a).1 a.scale ≡ (split a).1 * 10 ^ (c - a.scale)
  unfolding rescale
  rescale_lem =
      rw (unit_at_lem (c - a.scale) (omega (arith, most)))
        (omega (arith, rescaled-lt, pow-le-pow_right {n = 10} (omega arith) {i = c} {j = 36} most))

  at_scale-IsSum : IsSum (at_scale a c) (split a).0 (10 ^ c) ((split a).1 * 10 ^ (c - a.scale))
  unfolding split
  at_scale-IsSum =
      let u = 10 ^ a.scale in
      let v = 10 ^ (c - a.scale) in
      let q = div_euclid a.mantissa u in
      let (parts, _) = div_euclid_lem a.mantissa u (pow-pos a.scale) in
      rw (unit_at_lem a.scale (omega (arith, le, most)), whole)
        (omega (
          arith,
          scaled_parts a.mantissa v,
          ap (λ t. t * v) parts,
          add-mul (pos_part q * u + rem_euclid a.mantissa u) (neg_part a.mantissa) v,
          add-mul (pos_part q * u) (rem_euclid a.mantissa u) v,
          add-mul (pos_part a.mantissa) (neg_part q * u) v,
          mul_assoc (pos_part q) u v,
          mul_assoc (neg_part q) u v,
        ))

-- Two decimal numbers compare as their values do, brought to the larger scale.
pub compare_decimals_lem :
    (a b : Decimal)
    → a.scale ≤ 36
    → b.scale ≤ 36
    → compare_decimals a b
      ≡ cmp (at_scale a (max a.scale b.scale)) (at_scale b (max a.scale b.scale))
unfolding compare_decimals
compare_decimals_lem a b p q = elim (Bool-cases (a.scale == b.scale)) [
  | inl e ↦
      let c = max a.scale b.scale in
      let none : c - a.scale ≡ 0 = ground arith in
      let none' : c - b.scale ≡ 0 = ground arith in
      rw (e, none, none') (sym (ap₂ cmp (scaled_one a.mantissa) (scaled_one b.mantissa)))
  | inr e ↦
      let c = max a.scale b.scale in
      rw
        (
          e,
          rescale_lem a c (omega arith) (omega arith),
          rescale_lem b c (omega arith) (omega arith),
        )
        (sym (
          cmp_sums (at_scale a c) (at_scale b c) (split a).0 (split b).0 (10 ^ c) _ _
            (at_scale-IsSum a c (omega arith) (omega arith))
            (at_scale-IsSum b c (omega arith) (omega arith))
            (rescaled-lt a c (omega arith) (omega arith))
            (rescaled-lt b c (omega arith) (omega arith))))
]
