-- ===== src/Ws/Reader/Slices.antt =====
-- Parts of the receive buffer.
use bowst.Prelude.{
  ℕ, zero, suc, ◌+◌, ◌-◌, ◌≤◌, ◌≡◌, refl, sym, ap, ap₂, ◌∙◌, true, List, [], ◌∷◌, length, take,
  drop, length-take, length-drop, drop-drop, leb, slice?, arith,
}
use bowst.Ws.Reader.{slice_of}

pub slice_of_lem :
    (xs : List ℕ) (i j : ℕ) → i ≤ j → j ≤ length xs → slice_of xs i j ≡ take (j - i) (drop i xs)
unfolding slice_of slice?
slice_of_lem xs i j a b =
    let t : leb i j ≡ true = ground arith in
    let u : leb j (length xs) ≡ true = ground arith in rw (t, u, slice_of) refl

pub drop-take : (xs : List ℕ) (i n : ℕ) → drop i (take n xs) ≡ take (n - i) (drop i xs)
drop-take xs zero n = let e : n ≡ n - 0 = omega arith in ap (λ k. take k xs) e
drop-take xs (suc i) zero =
    let e : 0 - suc i ≡ 0 = omega arith in ap (λ k. take k (drop (suc i) xs)) (sym e)
drop-take [] (suc i) (suc n) = sym (take-nil (suc n - suc i))
  where
    take-nil : (k : ℕ) → take {A = ℕ} k [] ≡ []
    take-nil zero = refl
    take-nil (suc k) = refl
drop-take (x ∷ xs) (suc i) (suc n) =
    let e : n - i ≡ suc n - suc i = omega arith in drop-take xs i n ∙ ap (λ k. take k (drop i xs)) e

take-take : (xs : List ℕ) (a b : ℕ) → a ≤ b → take a (take b xs) ≡ take a xs
take-take xs zero b h = refl
take-take xs (suc a) zero h = absurd (omega arith)
take-take [] (suc a) (suc b) h = refl
take-take (x ∷ xs) (suc a) (suc b) h = ap (λ t. x ∷ t) (take-take xs a b (omega arith))

pub length-slice_of :
    (xs : List ℕ) (i j : ℕ) → i ≤ j → j ≤ length xs → length (slice_of xs i j) ≡ j - i
length-slice_of xs i j a b =
    ap length (slice_of_lem xs i j a b)
    ∙ omega (arith, length-take (j - i) (drop i xs), length-drop i xs)

-- A part of a part.
pub slice_of-slice_of :
    (xs : List ℕ) (i j k n : ℕ)
    → i ≤ j
    → j ≤ length xs
    → k ≤ n
    → i + n ≤ j
    → slice_of xs (i + k) (i + n) ≡ take (n - k) (drop k (slice_of xs i j))
slice_of-slice_of xs i j k n a b c d =
    slice_of_lem xs (i + k) (i + n) (omega arith) (omega arith)
    ∙ ap₂ take p (sym (drop-drop i k xs))
    ∙ sym (take-take (drop k (drop i xs)) (n - k) (j - i - k) (omega arith))
    ∙ ap (take (n - k)) (sym (drop-take (drop i xs) k (j - i)))
    ∙ ap (λ t. take (n - k) (drop k t)) (sym (slice_of_lem xs i j a b))
  where
    p : i + n - (i + k) ≡ n - k
    p = omega arith

-- What is left behind the first bytes of a part.
pub drop-slice_of :
    (xs : List ℕ) (i j n : ℕ)
    → i + n ≤ j
    → j ≤ length xs
    → slice_of xs (i + n) j ≡ drop n (slice_of xs i j)
drop-slice_of xs i j n a b =
    slice_of_lem xs (i + n) j a b
    ∙ ap₂ take p (sym (drop-drop i n xs))
    ∙ sym (drop-take (drop i xs) n (j - i))
    ∙ ap (drop n) (sym (slice_of_lem xs i j (omega arith) b))
  where
    p : j - (i + n) ≡ j - i - n
    p = omega arith
