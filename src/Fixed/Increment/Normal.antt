-- ===== src/Fixed/Increment/Normal.antt =====
-- `Increment::new` keeps the value and leaves no trailing zero.
use bowst.Prelude.{
  ℕ, zero, suc, ◌+◌, ◌-◌, ◌*◌, ◌/◌, ◌%◌, ◌^◌, ◌<◌, ◌≤◌, ◌≡◌, ◌⊎◌, refl, ap, ap₂, ◌∙◌, true, false,
  Bool-cases, inl, inr, ltb, ◌==◌, ok, arith,
}
use native.Mathlib.Nat.{mul-pos, pow-succ', mul_left_comm}
use bowst.Prelude.Int.{pos, i64_half}
use bowst.Units.{not_positive}
use bowst.Fixed.Increment.{Increment, normalise, new}
use bowst.Fixed.Increment.Units.{IsIncrement}
use bowst.Fixed.Powers.{pow-pos}

-- The same value, and no zero that could be dropped.
pub record Normal (m s : ℕ) (inc : Increment) : Type 0 where
  pub fewer : inc.scale ≤ s
  pub value : inc.mantissa * 10 ^ (s - inc.scale) ≡ m
  pub least : (inc.scale ≡ 0) ⊎ (0 < inc.mantissa % 10)
  pub smaller : inc.mantissa ≤ m

normalise_lem : (m s : ℕ) → Normal m s (normalise m s)
unfolding normalise
normalise_lem m zero = record {
  fewer = omega arith;
  value = omega arith;
  least = inl refl;
  smaller = omega arith;
}
normalise_lem m (suc s) = elim (Bool-cases (m % 10 == 0)) [
  | inr last ↦
      let none : suc s - suc s ≡ 0 = omega arith in
      let one : m * 10 ^ 0 ≡ m = omega arith in
      rw last (record {
        fewer = omega arith;
        value = ap (λ k. m * 10 ^ k) none ∙ one;
        least = inr (ground arith);
        smaller = omega arith;
      })
  | inl z ↦
      let n = normalise_lem (m / 10) s in
      let inc = normalise (m / 10) s in
      let more : suc s - inc.scale ≡ suc (s - inc.scale) = omega (arith, n.fewer) in
      let power : inc.mantissa * 10 ^ suc (s - inc.scale)
          ≡ 10 * (inc.mantissa * 10 ^ (s - inc.scale)) =
        ap (λ t. inc.mantissa * t) (pow-succ' 10 (s - inc.scale))
        ∙ mul_left_comm inc.mantissa 10 (10 ^ (s - inc.scale)) in
      let zero_last : m % 10 ≡ 0 = ground arith in
      rw z (record {
        fewer = omega (arith, n.fewer);
        value = ap (λ k. inc.mantissa * 10 ^ k) more ∙ power ∙ omega (arith, n.value, zero_last);
        least = n.least;
        smaller = omega (arith, n.smaller);
      })
]

normalise-pos : (m s : ℕ) → 0 < m → 0 < (normalise m s).mantissa
unfolding normalise
normalise-pos m zero h = h
normalise-pos m (suc s) h = elim (Bool-cases (m % 10 == 0)) [
  | inr last ↦ rw last h
  | inl z ↦ rw z (normalise-pos (m / 10) s (ground arith))
]

-- An increment is made of any positive `i64` with at most 18 decimal places. It has the same value, and
-- its last digit is not a zero unless it has no decimal places.
pub new_lem :
    (m s : ℕ)
    → 0 < m
    → m < i64_half
    → s ≤ 18
    → (inc : Increment) × (new (pos m) s ≡ ok inc) × IsIncrement inc × Normal m s inc
unfolding new
new_lem zero s p b few = absurd (omega arith)
new_lem (suc n) s p b few =
    let t : ltb 18 s ≡ false = ground arith in
    let v = normalise_lem (suc n) s in
    (
      normalise (suc n) s,
      ground arith,
      record {
        positive = normalise-pos (suc n) s p;
        small = omega (arith, v.smaller);
        few = omega (arith, v.fewer);
      },
      v,
    )

normalise-zeros : (m s k : ℕ) → normalise (m * 10 ^ k) (s + k) ≡ normalise m s
unfolding normalise
normalise-zeros m s zero =
    let a : m * 10 ^ 0 ≡ m = omega arith in let b : s + 0 ≡ s = omega arith in ap₂ normalise a b
normalise-zeros m s (suc k) =
    let more : s + suc k ≡ suc (s + k) = omega arith in
    let power : m * 10 ^ suc k ≡ 10 * (m * 10 ^ k) =
      ap (λ t. m * t) (pow-succ' 10 k) ∙ mul_left_comm m 10 (10 ^ k) in
    ap₂ normalise power more ∙ step (m * 10 ^ k) ∙ normalise-zeros m s k
  where
    step : (n : ℕ) → normalise (10 * n) (suc (s + k)) ≡ normalise n (s + k)
    step n =
        let z : (10 * n % 10 == 0) ≡ true = ground arith in
        let q : 10 * n / 10 ≡ n = omega arith in rw z (ap (λ t. normalise t (s + k)) q)

-- Zeros at the end of the text of an increment make no difference: with `k` of them the increment is
-- the same, as long as the mantissa is an `i64` and the decimal places are at most 18.
pub new-zeros :
    (m s k : ℕ)
    → 0 < m
    → m * 10 ^ k < i64_half
    → s + k ≤ 18
    → new (pos (m * 10 ^ k)) (s + k) ≡ new (pos m) s
unfolding new
new-zeros m s k p b few =
    let t : ltb 18 (s + k) ≡ false = ground arith in
    let u : ltb 18 s ≡ false = ground arith in
    let a : not_positive (pos (m * 10 ^ k)) ≡ false =
      positive (m * 10 ^ k) (mul-pos p (pow-pos k)) in
    rw (t, u, a, positive m p) (ap ok (normalise-zeros m s k))
  where
    positive : (n : ℕ) → 0 < n → not_positive (pos n) ≡ false
    positive n h = ground arith
