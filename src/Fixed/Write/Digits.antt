-- ===== src/Fixed/Write/Digits.antt =====
-- The digits of a number spell it, and there are enough of them.
use bowst.Prelude.{
  ℕ, zero, suc, ◌+◌, ◌-◌, ◌/◌, ◌%◌, ◌^◌, ◌<◌, ◌≤◌, ◌≡◌, ◌⊎◌, refl, sym, ap, ◌∙◌, max, true, ◌||◌,
  Bool-cases, inl, inr, List, [], ◌∷◌, ◌++◌, length, length-append, All, All-append, ltb, sat_add,
  ok, arith,
}
use mathlib.Core.List.{append_assoc}
use native.Mathlib.Nat.{pow-succ'}
use bowst.Fixed.Parse.Value.{IsDigit, horner, horner-append}
use bowst.Fixed.Write.{digits}

-- Without its last digit a number has a digit less.
fewer : (k rest : ℕ) → rest < 10 ^ k → rest / 10 < 10 ^ (k - 1)
fewer zero rest h = omega arith
fewer (suc k) rest h = let e : suc k - 1 ≡ k = omega arith in rw e (omega (arith, pow-succ' 10 k))

some_left :
    (k rest len least : ℕ)
    → rest < 10 ^ k
    → ltb 0 rest || ltb len least ≡ true
    → (0 < k) ⊎ (len < least)
some_left zero rest len least h more = inr (ground arith)
some_left (suc k) rest len least h more = inl (omega arith)

-- With room for `k` digits of the rest, and for those up to the least number of digits, the loop ends.
pub digits_lem :
    (room k rest len least : ℕ) (rev : List ℕ)
    → rest < 10 ^ k
    → k ≤ room
    → least ≤ len + room
    → len + room ≤ 42
    → (ds : List ℕ) × (digits room rest len least rev ≡ ok (ds ++ rev))
      × All IsDigit ds
      × (horner 0 ds ≡ rest)
      × (least ≤ len + length ds)
      × (length ds ≤ max k (least - len))
unfolding digits
digits_lem zero zero rest len least rev h a b c =
    ([], ground arith, tt, omega arith, omega arith, omega arith)
digits_lem zero (suc k) rest len least rev h a b c = absurd (omega arith)
digits_lem (suc room) k rest len least rev h a b c =
    elim (Bool-cases (ltb 0 rest || ltb len least)) [
      | inr stop ↦ ([], rw stop refl, tt, ground arith, ground arith, omega arith)
      | inl more ↦
          let smaller : rest / 10 < 10 ^ (k - 1) = fewer k rest h in
          let (ds, e, all, val, enough, size) =
            digits_lem room (k - 1) (rest / 10) (len + 1) least ((48 + rest % 10) ∷ rev) smaller
              (omega arith) (omega arith) (omega arith) in
          let digit : IsDigit (48 + rest % 10) = ground arith in
          let len' : sat_add len 1 ≡ len + 1 = omega arith in
          (
            ds ++ ((48 + rest % 10) ∷ []),
            rw (more, len') (e ∙ ap ok (sym (append_assoc ds ((48 + rest % 10) ∷ []) rev))),
            All-append IsDigit ds ((48 + rest % 10) ∷ []) all (digit, tt),
            horner-append 0 ds ((48 + rest % 10) ∷ []) ∙ omega (arith, val),
            omega (arith, length-append ds ((48 + rest % 10) ∷ []), enough),
            omega (
              arith,
              length-append ds ((48 + rest % 10) ∷ []),
              size,
              some_left k rest len least h more,
            ),
          )
    ]
