-- ===== src/Fixed/Increment/Text.antt =====
-- The fast path of `parse_units_bytes` has the general path's results.
use bowst.Prelude.{
  ℕ, suc, ◌+◌, ◌-◌, ◌*◌, ◌%◌, ◌^◌, ◌<◌, ◌≤◌, ◌≡◌, ◌⊎◌, refl, sym, ap, ◌∙◌, min, Bool, true, false,
  not, ◌&&◌, ◌||◌, Bool-cases, inl, inr, Option, some, Option-cases, and_then, List, [], ◌∷◌, ◌++◌,
  length, take, drop, All, ltb, ◌==◌, if◌then◌else◌, u64_mod, sat_add, arith,
}
use native.Mathlib.Nat.{pow-succ', pow-le-pow_right, mul_assoc}
use bowst.Prelude.Int.{ℤ, pos, ◌*ℤ◌, i64_half, checked, checked_mul}
use bowst.Fixed.{pow10_i64, fast_digits, max_parse_scale}
use bowst.Fixed.Parse.Value.{IsDigit, horner}
use bowst.Fixed.Increment.{split_point, all_zeros, read_digits, read_parts}

abbrev pub IsByte : ℕ → Type 0
IsByte b = b < 256

-- What the digits' loop makes of at most 18 digits.
pub read_digits_lem :
    (cs : List ℕ) (w v j : ℕ)
    → All IsByte cs
    → w < 10 ^ j
    → j + length cs ≤ 18
    → read_digits w cs ≡ some v
    → All IsDigit cs × (v ≡ horner w cs) × (v < 10 ^ (j + length cs))
unfolding read_digits
read_digits_lem [] w v j all b few e =
    let n : j + 0 ≡ j = omega arith in (tt, cc, rw n (omega (arith, value e)))
  where
    value : ◌≡◌ {A = Option ℕ} (some w) (some v) → w ≡ v
    value e = cc
read_digits_lem (c ∷ cs) w v j (byte, all) b few e =
    elim (Bool-cases (ltb 9 ((c + 256 - 48) % 256))) [
      | inl bad ↦ absurd (ground arith)
      | inr good ↦
          let d : IsDigit c = ground arith in
          let next : j + 1 ≡ suc j = omega arith in
          let tenfold : 10 ^ (j + 1) ≡ 10 * 10 ^ j = ap (λ t. 10 ^ t) next ∙ pow-succ' 10 j in
          let d_value : (c + 256 - 48) % 256 ≡ c - 48 = ground arith in
          let nine : (c + 256 - 48) % 256 ≤ 9 = ground arith in
          let small : w * 10 + (c - 48) < 10 ^ (j + 1) = omega (arith, b, tenfold, d_value, nine) in
          let digit : (w * 10 % u64_mod + (c + 256 - 48) % 256) % u64_mod ≡ w * 10 + (c - 48) =
            omega (
              arith,
              b,
              d_value,
              nine,
              pow-le-pow_right {n = 10} (omega arith) {i = j} {j = 17} (omega arith),
            ) in
          let (ds, val, bound) =
            read_digits_lem cs (w * 10 + (c - 48)) v (j + 1) all small (omega arith)
              (ap (λ t. read_digits t cs) (sym digit) ∙ (rw good at e)) in
          let n : j + suc (length cs) ≡ j + 1 + length cs = omega arith in
          ((d, ds), val, rw n bound)
    ]

pub all_zeros_lem :
    (cs : List ℕ) (v : ℕ)
    → all_zeros cs ≡ true
    → All IsDigit cs × (horner v cs ≡ v * 10 ^ length cs)
unfolding all_zeros
all_zeros_lem [] v e = (tt, omega arith)
all_zeros_lem (c ∷ cs) v e =
    let zero_digit : c ≡ 48 = ground arith in
    let (all, val) = all_zeros_lem cs (v * 10 + (c - 48)) (ground arith) in
    (
      (ground arith, all),
      val
          ∙ ap (λ t. t * 10 ^ length cs) (let e : v * 10 + (c - 48) ≡ v * 10 = omega arith in e)
          ∙ mul_assoc v 10 (10 ^ length cs)
          ∙ ap (λ t. v * t) (sym (pow-succ' 10 (length cs))),
    )

pub split_point_lem :
    (bytes : List ℕ)
    → (let (int, frac, dot) = split_point bytes in bytes ≡ int ++ (if dot then 46 ∷ frac else []))
unfolding split_point
split_point_lem [] = refl
split_point_lem (b ∷ bytes) = elim (Bool-cases (b == 46)) [
  | inl e ↦ let point : b ≡ 46 = ground arith in rw e (ap (λ t. t ∷ bytes) point)
  | inr e ↦ rw e (ap (λ t. b ∷ t) (split_point_lem bytes))
]

pub split_point_plain :
    (bytes : List ℕ) → (let (int, frac, dot) = split_point bytes in (dot ≡ true) ⊎ (frac ≡ []))
unfolding split_point
split_point_plain [] = inr refl
split_point_plain (b ∷ bytes) = elim (Bool-cases (b == 46)) [
  | inl e ↦ rw e (inl refl)
  | inr e ↦ rw e (split_point_plain bytes)
]

abbrev pub kept : ℕ → List ℕ → List ℕ
kept wanted frac = take (min (length frac) wanted) frac

abbrev pub dropped : ℕ → List ℕ → List ℕ
dropped wanted frac = drop (min (length frac) wanted) frac

-- What the fast path has seen when it succeeds.
pub record Fast (wanted : ℕ) (int frac : List ℕ) (dot : Bool) (u : ℤ) : Type 0 where
  pub w : ℕ
  pub some_frac : (dot ≡ false) ⊎ (0 < length frac)
  pub some_int : 0 < length int
  pub few : length frac ≤ 18
  pub zeros : all_zeros (dropped wanted frac) ≡ true
  pub short : length int + length (kept wanted frac) ≤ 18
  pub read : read_digits 0 (int ++ kept wanted frac) ≡ some w
  pub bounded : w * 10 ^ (wanted - length (kept wanted frac)) < i64_half
  pub value : u ≡ pos (w * 10 ^ (wanted - length (kept wanted frac)))

scaled_units :
    (w k : ℕ) (u : ℤ)
    → and_then
        (checked i64_half (pos w))
        (λ units'. and_then (pow10_i64 k) (λ places. checked_mul i64_half units' (pos places)))
      ≡ some u
    → (w * 10 ^ k < i64_half) × (u ≡ pos (w * 10 ^ k))
unfolding pow10_i64 ◌*ℤ◌
scaled_units w k u e = elim (Bool-cases (ltb w i64_half)) [
  | inr a ↦ absurd (ground arith)
  | inl a ↦ elim (Bool-cases (ltb k 19)) [
    | inr b ↦ absurd (ground arith)
    | inl b ↦ elim (Bool-cases (ltb (w * 10 ^ k) i64_half)) [
      | inr c ↦ absurd (ground arith)
      | inl c ↦ (ground arith, ground arith)
    ]
  ]
]

pub read_parts-some :
    (wanted : ℕ) (int frac : List ℕ) (dot : Bool) (u : ℤ)
    → read_parts wanted int frac dot ≡ some u
    → Fast wanted int frac dot u
unfolding read_parts
read_parts-some wanted int frac dot u e = elim (Bool-cases (dot && length frac == 0)) [
  | inl a ↦ absurd (ground arith)
  | inr a ↦ elim (Bool-cases (length int == 0 || ltb max_parse_scale (length frac))) [
    | inl b ↦ absurd (ground arith)
    | inr b ↦ elim (Bool-cases (not (all_zeros (dropped wanted frac)))) [
      | inl c ↦ absurd (ground arith)
      | inr c ↦
          elim (Bool-cases (ltb fast_digits (sat_add (length int) (length (kept wanted frac))))) [
            | inl d ↦ absurd (ground arith)
            | inr d ↦ elim (Option-cases (read_digits 0 (int ++ kept wanted frac))) [
              | inl f ↦ absurd (ground arith)
              | inr (w, f) ↦
                  let (bounded, value) =
                    scaled_units w (wanted - length (kept wanted frac)) u (ground arith) in
                  record {
                    w = w;
                    some_frac = point dot a;
                    some_int = ground arith;
                    few = ground arith;
                    zeros = ground arith;
                    short = ground arith;
                    read = f;
                    bounded = bounded;
                    value = value;
                  }
            ]
          ]
    ]
  ]
]
  where
    point : (dot : Bool) → dot && length frac == 0 ≡ false → (dot ≡ false) ⊎ (0 < length frac)
    point false a = inl refl
    point true a = inr (ground arith)
