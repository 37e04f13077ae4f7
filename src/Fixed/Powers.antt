-- ===== src/Fixed/Powers.antt =====
-- Powers of ten, the units of the decimal places.
use bowst.Prelude.{ℕ, zero, suc, ◌+◌, ◌*◌, ◌^◌, ◌<◌, ◌≡◌, sym, ap, ◌∙◌, arith}
use native.Mathlib.Nat.{pow-succ', mul_left_comm}
use bowst.Prelude.Int.{ℤ, pos, ◌*ℤ◌}
use bowst.Prelude.Euclid.{scaled_parts, eq_of_parts}

pub pow-add : (j k : ℕ) → 10 ^ (j + k) ≡ 10 ^ j * 10 ^ k
pow-add j zero = let e : j + 0 ≡ j = omega arith in ap (λ n. 10 ^ n) e ∙ omega arith
pow-add j (suc k) =
    let e : j + suc k ≡ suc (j + k) = omega arith in
    ap (λ n. 10 ^ n) e
    ∙ pow-succ' 10 (j + k)
    ∙ ap (λ t. 10 * t) (pow-add j k)
    ∙ mul_left_comm 10 (10 ^ j) (10 ^ k)
    ∙ ap (λ t. 10 ^ j * t) (sym (pow-succ' 10 k))

pub pow-pos : (n : ℕ) → 0 < 10 ^ n
pow-pos zero = omega arith
pow-pos (suc n) = omega (arith, pow-succ' 10 n, pow-pos n)

pub scaled_one : (a : ℤ) → a *ℤ pos 1 ≡ a
scaled_one a = eq_of_parts _ _ (omega (arith, scaled_parts a 1))
