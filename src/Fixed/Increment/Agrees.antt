-- ===== src/Fixed/Increment/Agrees.antt =====
-- `parse_units_bytes` is the conversion of what `parse_bytes` reads.
use bowst.Prelude.{
  ℕ, ◌+◌, ◌-◌, ◌*◌, ◌^◌, ◌<◌, ◌≤◌, ◌≡◌, ◌⊎◌, refl, sym, ap, ap₂, ◌∙◌, subst, min, Bool, true, false,
  Bool-cases, inl, inr, some, Option-cases, List, [], ◌∷◌, ◌++◌, length, length-append, length-take,
  length-drop, take-append-drop, All, All-split, All-append, All-take, ◌==◌, if◌then◌else◌, ok,
  ◌>>=◌, arith,
}
use mathlib.Core.List.{append_assoc}
use native.Mathlib.Nat.{pow-le-pow_right, mul-le-mul_right, mul-le-mul_left, add-mul}
use bowst.Prelude.Int.{ℤ, pos, ◌*ℤ◌, fits, i64_half, i128_half}
use bowst.Fixed.{Rounding, Decimal}
use bowst.Fixed.Parse.{parse_bytes}
use bowst.Fixed.Parse.Value.{IsDigit, horner, horner-append}
use bowst.Fixed.Parse.Reads.{pointed, parse_bytes_reads}
use bowst.Fixed.Increment.{
  Increment, to_units, split_point, parse_exact_power_of_ten, parse_units_bytes,
}
use bowst.Fixed.Increment.Units.{IsIncrement, numerator, denominator, common, to_units_lem}
use bowst.Fixed.Powers.{pow-pos}
use bowst.Fixed.Increment.RoundTrip.{multiple-Rounds}
use bowst.Fixed.Increment.Text.{
  IsByte, kept, dropped, Fast, read_digits_lem, all_zeros_lem, split_point_lem, split_point_plain,
  read_parts-some,
}

-- The number that a text stands for, when the fast path has read it: its digits, and its places.
abbrev value_of : List ℕ → ℕ → ℕ → Decimal
value_of frac wanted w = record {
  mantissa = pos (w * 10 ^ length (dropped wanted frac));
  scale = length frac;
}

product-lt : (w m k : ℕ) → w < m → k ≤ 18 → w * 10 ^ k < m * 10 ^ 18
product-lt w m k h few =
    let a = mul-le-mul_right {m = w + 1} {n = m} (10 ^ k) (omega arith) in
    let b = pow-le-pow_right {n = 10} (omega arith) {i = k} {j = 18} few in
    omega
      (arith, a, add-mul w 1 (10 ^ k), pow-pos k, mul-le-mul_left {m = 10 ^ k} {n = 10 ^ 18} m b)

general_parse :
    (wanted : ℕ) (int frac : List ℕ) (dot : Bool) (u : ℤ)
    → All IsByte (int ++ kept wanted frac)
    → (f : Fast wanted int frac dot u)
    → (f.w < 10 ^ 18) × (parse_bytes (int ++ pointed frac) ≡ ok (value_of frac wanted f.w))
general_parse wanted int frac dot u bytes f =
    let (digits, val, bound) =
      read_digits_lem (int ++ kept wanted frac) 0 f.w 0 bytes (omega arith)
        (omega (arith, length-append int (kept wanted frac), f.short)) f.read in
    let (zeros, spelled) = all_zeros_lem (dropped wanted frac) f.w f.zeros in
    let parts : kept wanted frac ++ dropped wanted frac ≡ frac =
      take-append-drop (min (length frac) wanted) frac in
    let places : length (dropped wanted frac) ≤ 18 =
      omega (arith, f.few, length-drop (min (length frac) wanted) frac) in
    let small : f.w < 10 ^ 18 = omega (
      arith,
      bound,
      pow-le-pow_right {n = 10} (omega arith) {i = 0 + length (int ++ kept wanted frac)} {j = 18}
          (omega (arith, length-append int (kept wanted frac), f.short)),
    ) in
    let whole : horner 0 (int ++ frac) ≡ f.w * 10 ^ length (dropped wanted frac) =
      ap (λ t. horner 0 (int ++ t)) (sym parts)
      ∙ ap (horner 0) (sym (append_assoc int (kept wanted frac) (dropped wanted frac)))
      ∙ horner-append 0 (int ++ kept wanted frac) (dropped wanted frac)
      ∙ ap (λ t. horner t (dropped wanted frac)) (sym val)
      ∙ spelled in
    (
      small,
      parse_bytes_reads (int ++ pointed frac) (value_of frac wanted f.w) (
        false,
        int,
        frac,
        refl,
        (All-split IsDigit int (kept wanted frac) digits).0,
        subst (All IsDigit) parts (
            All-append IsDigit (kept wanted frac) (dropped wanted frac)
              (All-split IsDigit int (kept wanted frac) digits).1 zeros),
        f.some_int,
        f.few,
        omega (arith, whole, product-lt f.w (10 ^ 18) (length (dropped wanted frac)) small places),
        rw whole refl,
      ),
    )

-- A product of natural numbers, as integers, with its factors in another order.
swapped : (a x y : ℕ) → pos (a * x) *ℤ pos y ≡ pos (a * y) *ℤ pos x
unfolding ◌*ℤ◌
swapped a x y = let e : a * x * y ≡ a * y * x = omega arith in ap pos e

product-fits : (n k : ℕ) → n < i64_half → k ≤ 18 → fits i128_half (pos n *ℤ pos (10 ^ k)) ≡ true
unfolding ◌*ℤ◌
product-fits n k h few = ground (arith, product-lt n i64_half k h few)

general_units :
    (inc : Increment) (int frac : List ℕ) (dot : Bool) (u : ℤ) (r : Rounding)
    → IsIncrement inc
    → inc.mantissa ≡ 1
    → (f : Fast inc.scale int frac dot u) → f.w < 10 ^ 18
    → to_units inc (value_of frac inc.scale f.w) r ≡ ok u
general_units inc int frac dot u r v one f small =
    let value : Decimal = value_of frac inc.scale f.w in
    let dropped_len : length (dropped inc.scale frac) ≡ common inc value - inc.scale =
      omega (arith, length-drop (min (length frac) inc.scale) frac) in
    let missing : inc.scale - length (kept inc.scale frac) ≡ common inc value - length frac =
      omega (arith, length-take (min (length frac) inc.scale) frac) in
    let places : common inc value - inc.scale ≤ 18 = omega (arith, f.few) in
    let den : denominator inc value ≡ 10 ^ (common inc value - inc.scale) =
      ap (λ m. m * 10 ^ (common inc value - inc.scale)) one ∙ omega arith in
    let units : u ≡ pos (f.w * 10 ^ (common inc value - length frac)) =
      f.value ∙ ap (λ k. pos (f.w * 10 ^ k)) missing in
    let num : numerator inc value ≡ u *ℤ pos (denominator inc value) =
      ap (λ k. pos (f.w * 10 ^ k) *ℤ pos (10 ^ (common inc value - length frac))) dropped_len
      ∙ swapped f.w (10 ^ (common inc value - inc.scale)) (10 ^ (common inc value - length frac))
      ∙ ap₂ (λ t d. t *ℤ pos d) (sym units) (sym den) in
    let bounded : f.w * 10 ^ (common inc value - length frac) < i64_half =
      subst (λ k. f.w * 10 ^ k < i64_half) missing f.bounded in
    (to_units_lem inc value r u v (record {
      bounded = ground (
        arith,
        product-lt f.w (10 ^ 18) (length (dropped inc.scale frac)) small
            (omega (arith, dropped_len, places)),
      );
      few = omega (arith, f.few);
    })).1
      (
        ap (fits i128_half) (num ∙ ap₂ (λ t d. t *ℤ pos d) units den)
            ∙ product-fits (f.w * 10 ^ (common inc value - length frac))
                (common inc value - inc.scale) bounded places,
        omega (
          arith,
          den,
          pow-le-pow_right {n = 10} (omega arith) {i = common inc value - inc.scale} {j = 18}
              places,
        ),
        rw units (ground arith),
        rw num (
            multiple-Rounds r u (denominator inc value)
              (omega (arith, den, pow-pos (common inc value - inc.scale)))),
      )

fast_path :
    (inc : Increment) (bytes : List ℕ) (u : ℤ) (r : Rounding)
    → IsIncrement inc
    → All IsByte bytes
    → parse_exact_power_of_ten inc bytes ≡ some u
    → (parse_bytes bytes >>= λ value. to_units inc value r) ≡ ok u
unfolding parse_exact_power_of_ten
fast_path inc bytes u r v all e = elim (Bool-cases (inc.mantissa == 1)) [
  | inr other ↦ absurd (ground arith)
  | inl is_one ↦
      let (int, frac, dot) = split_point bytes in
      let f =
        read_parts-some inc.scale int frac dot u (rw (is_one, parse_exact_power_of_ten) at e) in
      let whole : bytes ≡ int ++ (if dot then 46 ∷ frac else []) = split_point_lem bytes in
      let text : bytes ≡ int ++ pointed frac =
        whole ∙ ap (λ t. int ++ t) (tail dot frac (split_point_plain bytes) f.some_frac) in
      let (int_bytes, rest_bytes) =
        All-split IsByte int (pointed frac) (subst (All IsByte) text all) in
      let kept_bytes =
        All-take IsByte (min (length frac) inc.scale) frac (behind frac rest_bytes) in
      let (small, parsed) =
        general_parse inc.scale int frac dot u
          (All-append IsByte int (kept inc.scale frac) int_bytes kept_bytes) f in
      rw (text, parsed, ◌>>=◌) (general_units inc int frac dot u r v (ground arith) f small)
]
  where
    behind : (frac : List ℕ) → All IsByte (pointed frac) → All IsByte frac
    behind [] h = tt
    behind (c ∷ cs) h = h.1

    tail :
        (dot : Bool) (frac : List ℕ)
        → (dot ≡ true) ⊎ (frac ≡ [])
        → (dot ≡ false) ⊎ (0 < length frac)
        → (if dot then 46 ∷ frac else []) ≡ pointed frac
    tail true [] a (inl b) = absurd (cc)
    tail true [] a (inr b) = absurd (omega arith)
    tail true (c ∷ cs) a b = refl
    tail false [] a b = refl
    tail false (c ∷ cs) (inl a) b = absurd (cc)
    tail false (c ∷ cs) (inr a) b = absurd (cc)

-- Parsing a text straight into whole increments has the result, or the error, of parsing it as a decimal
-- number and converting that, for every text of bytes and every increment that its constructor makes.
pub parse_units_bytes_lem :
    (inc : Increment) (bytes : List ℕ) (r : Rounding)
    → IsIncrement inc
    → All IsByte bytes
    → parse_units_bytes inc bytes r ≡ (parse_bytes bytes >>= λ value. to_units inc value r)
unfolding parse_units_bytes
parse_units_bytes_lem inc bytes r v all = elim (Option-cases (parse_exact_power_of_ten inc bytes)) [
  | inl e ↦ rw (e, parse_units_bytes) refl
  | inr (u, e) ↦ rw (e, parse_units_bytes) (sym (fast_path inc bytes u r v all e))
]
