-- ===== src/Fixed/Increment/Division.antt =====
-- The rounded quotient is the nearest multiple on its side.
use bowst.Prelude.{
  ℕ, zero, suc, ◌+◌, ◌-◌, ◌*◌, ◌<◌, ◌≤◌, ◌≡◌, ◌↔◌, refl, sym, ap, ◌∙◌, Bool, true, false,
  Bool-cases, inl, inr, some, none, ◌==◌, if◌then◌else◌, Result, ok, ◌>>=◌, ok_or, arith, subst,
}
use native.Mathlib.Nat.{add-mul}
use bowst.Prelude.Int.{
  ℤ, pos, negsuc, ◌*ℤ◌, fits, i64_half, i128_half, checked, div_euclid, rem_euclid,
  checked_div_euclid, checked_rem_euclid,
}
use bowst.Prelude.Euclid.{
  pos_part, neg_part, ◌≤ℤ◌, ◌<ℤ◌, ◌+ℤ◌, +ℤ_parts, eq_of_parts, scaled_parts, div_euclid_lem,
  fits-div_euclid, euclid_unique,
}
use bowst.Fixed.{FixedError, overflow, Rounding, down, up, exact, plus_one, round_quotient}
use bowst.Fixed.Increment.{divide}

-- `units` times the denominator is the nearest such product to the numerator on the side that the
-- rounding wants, or the numerator itself.
abbrev pub Rounds : Rounding → ℤ → ℤ → ℕ → Type 0
Rounds down units numerator denominator =
    (units *ℤ pos denominator ≤ℤ numerator)
    × (numerator <ℤ units *ℤ pos denominator +ℤ pos denominator)
Rounds up units numerator denominator =
    (numerator ≤ℤ units *ℤ pos denominator)
    × (units *ℤ pos denominator <ℤ numerator +ℤ pos denominator)
Rounds exact units numerator denominator = units *ℤ pos denominator ≡ numerator

plus_one_parts :
    (a : ℤ) → pos_part (plus_one a) + neg_part a ≡ neg_part (plus_one a) + pos_part a + 1
unfolding plus_one
plus_one_parts (pos n) = omega arith
plus_one_parts (negsuc zero) = omega arith
plus_one_parts (negsuc (suc n)) = omega arith

-- The same, over the denominator.
plus_one_scaled :
    (a : ℤ) (d : ℕ)
    → pos_part (plus_one a) * d + neg_part a * d ≡ neg_part (plus_one a) * d + pos_part a * d + d
plus_one_scaled a d = omega (
  arith,
  ap (λ n. n * d) (plus_one_parts a),
  add-mul (pos_part (plus_one a)) (neg_part a) d,
  add-mul (neg_part (plus_one a) + pos_part a) 1 d,
  add-mul (neg_part (plus_one a)) (pos_part a) d,
)

-- The result of the rounding, when it is defined.
abbrev rounded : Rounding → ℤ → ℕ → ℤ
rounded down q rem = q
rounded up q rem = if rem == 0 then q else plus_one q
rounded exact q rem = q

abbrev Defined : Rounding → ℕ → Type 0
Defined exact rem = rem ≡ 0
Defined _ rem = 0 ≤ rem

module _ (n : ℤ) (d : ℕ) where
  q : ℤ
  q = div_euclid n (suc d)

  rem : ℕ
  rem = rem_euclid n (suc d)

  rounded-Rounds : (r : Rounding) → Defined r rem → Rounds r (rounded r q rem) n (suc d)
  unfolding q rem
  rounded-Rounds down h = omega (
    arith,
    div_euclid_lem n (suc d),
    scaled_parts q (suc d),
    +ℤ_parts (q *ℤ pos (suc d)) (pos (suc d)),
  )
  rounded-Rounds exact h =
      eq_of_parts _ _ (omega (arith, div_euclid_lem n (suc d), scaled_parts q (suc d)))
  rounded-Rounds up h = elim (Bool-cases (rem == 0)) [
    | inl z ↦
        let zero_rem : rem_euclid n (suc d) ≡ 0 = ground arith in
        rw z (
          omega (
            arith,
            div_euclid_lem n (suc d),
            scaled_parts q (suc d),
            +ℤ_parts n (pos (suc d)),
            zero_rem,
          ))
    | inr s ↦
        let some_rem : 0 < rem_euclid n (suc d) = ground arith in
        rw s (
          omega (
            arith,
            div_euclid_lem n (suc d),
            plus_one_scaled q (suc d),
            scaled_parts (plus_one q) (suc d),
            +ℤ_parts n (pos (suc d)),
            some_rem,
          ))
  ]

  -- How far `units * (d + 1)` is from `n`, below it or above it.
  Rounds-rounded :
      (r : Rounding) (u : ℤ) → Rounds r u n (suc d) → (u ≡ rounded r q rem) × Defined r rem
  unfolding q rem
  Rounds-rounded down u (low, high) = (
    euclid_unique u q (suc d) (pos_part n + neg_part u * suc d - (pos_part u * suc d + neg_part n))
        rem (omega (arith, scaled_parts u (suc d), +ℤ_parts (u *ℤ pos (suc d)) (pos (suc d))))
        (div_euclid_lem n (suc d) (omega arith)).1
        (omega (arith, scaled_parts u (suc d), div_euclid_lem n (suc d))),
    omega arith,
  )
  Rounds-rounded exact u e =
      let same : pos_part u * suc d + neg_part n ≡ pos_part n + neg_part u * suc d =
        omega (arith, ap pos_part e, ap neg_part e, scaled_parts u (suc d)) in
      let unique : u ≡ q =
        euclid_unique u q (suc d) 0 rem (omega arith) (div_euclid_lem n (suc d) (omega arith)).1
          (omega (arith, same, div_euclid_lem n (suc d))) in
      (
        unique,
        omega (
          arith,
          same,
          div_euclid_lem n (suc d),
          ap (λ a. pos_part a * suc d) unique,
          ap (λ a. neg_part a * suc d) unique,
        ),
      )
  Rounds-rounded up u (low, high) = elim (Bool-cases (rem == 0)) [
    | inl z ↦
        let zero_rem : rem_euclid n (suc d) ≡ 0 = ground arith in
        rw z (
          sym (
              euclid_unique q u (suc d)
                (pos_part u * suc d + neg_part n - (pos_part n + neg_part u * suc d)) 0
                (omega (arith, scaled_parts u (suc d), +ℤ_parts n (pos (suc d)))) (omega arith)
                (omega (arith, scaled_parts u (suc d), div_euclid_lem n (suc d), zero_rem))),
          omega arith,
        )
    | inr s ↦
        let some_rem : 0 < rem_euclid n (suc d) = ground arith in
        rw s (
          euclid_unique u (plus_one q) (suc d) (suc d - rem)
              (pos_part u * suc d + neg_part n - (pos_part n + neg_part u * suc d))
              (omega (arith, some_rem))
              (omega (arith, scaled_parts u (suc d), +ℤ_parts n (pos (suc d))))
              (omega (
                arith,
                scaled_parts u (suc d),
                div_euclid_lem n (suc d),
                plus_one_scaled q (suc d),
              )),
          omega arith,
        )
  ]

abbrev pub narrow : ℤ → Result ℤ FixedError
narrow units = ok_or (checked i64_half units) overflow

pub fits-wider : (u : ℤ) → fits i64_half u ≡ true → fits i128_half u ≡ true
fits-wider (pos n) h = ground arith
fits-wider (negsuc n) h = ground arith

narrow-ok : (a u : ℤ) → narrow a ≡ ok u → (fits i64_half u ≡ true) × (u ≡ a)
narrow-ok a u e = go (fits i64_half a) refl e
  where
    go :
        (t : Bool)
        → fits i64_half a ≡ t
        → ok_or (if t then some a else none) overflow ≡ ok u
        → (fits i64_half u ≡ true) × (u ≡ a)
    go true f e = (subst (λ b. fits i64_half b ≡ true) {x = a} {y = u} (cc) f, cc)
    go false f e = absurd (cc)

narrowed :
    (r : Rounding) (q u : ℤ) (rem : ℕ)
    → (round_quotient q (rem == 0) r >>= narrow) ≡ ok u
    → (fits i64_half u ≡ true) × (u ≡ rounded r q rem) × Defined r rem
unfolding round_quotient
narrowed r q u rem e = elim (Bool-cases (rem == 0)) [
  | inl z ↦ whole r (rw (z, ◌>>=◌) at e) (ground arith) z
  | inr s ↦ rest r (rw (s, ◌>>=◌) at e) s
]
  where
    whole :
        (r : Rounding)
        → narrow q ≡ ok u
        → rem ≡ 0
        → rem == 0 ≡ true
        → (fits i64_half u ≡ true) × (u ≡ rounded r q rem) × Defined r rem
    whole down e z t = let (f, same) = narrow-ok q u e in (f, same, omega arith)
    whole up e z t = let (f, same) = narrow-ok q u e in (f, rw t same, omega arith)
    whole exact e z t = let (f, same) = narrow-ok q u e in (f, same, z)

    rest :
        (r : Rounding)
        → (round_quotient q false r >>= narrow) ≡ ok u
        → rem == 0 ≡ false
        → (fits i64_half u ≡ true) × (u ≡ rounded r q rem) × Defined r rem
    rest down e t = let (f, same) = narrow-ok q u e in (f, same, omega arith)
    rest exact e t = absurd (cc)
    rest up e t = elim (Bool-cases (fits i128_half (plus_one q))) [
      | inr big ↦ absurd (ground arith)
      | inl f' ↦
          let (f, same) = narrow-ok (plus_one q) u (rw (f', ◌>>=◌) at e) in
          (f, rw t same, omega arith)
    ]

up_narrow :
    (whole : Bool) (q : ℤ)
    → fits i64_half (if whole then q else plus_one q) ≡ true
    → (round_quotient q whole up >>= narrow) ≡ ok (if whole then q else plus_one q)
unfolding round_quotient
up_narrow true q f = rw (f, ◌>>=◌) refl
up_narrow false q f = rw (fits-wider (plus_one q) f, f, ◌>>=◌) refl

rounded-narrow :
    (r : Rounding) (q : ℤ) (rem : ℕ)
    → Defined r rem
    → fits i64_half (rounded r q rem) ≡ true
    → (round_quotient q (rem == 0) r >>= narrow) ≡ ok (rounded r q rem)
unfolding round_quotient
rounded-narrow down q rem h f = elim (Bool-cases (rem == 0)) [
  | inl z ↦ rw (z, f, ◌>>=◌) refl
  | inr s ↦ rw (s, f, ◌>>=◌) refl
]
rounded-narrow exact q rem h f = let z : (rem == 0) ≡ true = ground arith in rw (z, f, ◌>>=◌) refl
rounded-narrow up q rem h f = up_narrow (rem == 0) q f

-- Which results a division has.
pub divide_lem :
    (half d : ℕ) (n : ℤ) (r : Rounding) (u : ℤ)
    → fits half n ≡ true
    → i64_half ≤ half
    → half ≤ i128_half
    → 0 < d
    → (divide half n (pos d) r ≡ ok u) ↔ ((fits i64_half u ≡ true) × Rounds r u n d)
unfolding divide checked_div_euclid checked_rem_euclid q rem
divide_lem half zero n r u f a b p = absurd (omega arith)
divide_lem half (suc d) n r u f a b p =
    let quotient = fits-div_euclid half (suc d) n p f in
    (
      λ e.
          let (small, same, h) = narrowed r (q n d) u (rem n d) (rw (quotient, ◌>>=◌) at e) in
          (small, subst (λ t. Rounds r t n (suc d)) (sym same) (rounded-Rounds n d r h)),
      λ (small, rounds).
          let (same, h) = Rounds-rounded n d r u rounds in
          rw (quotient, ◌>>=◌)
            (rounded-narrow r (q n d) (rem n d) h (subst (λ t. fits i64_half t ≡ true) same small)
              ∙ ap ok (sym same)),
    )
