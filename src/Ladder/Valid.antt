-- ===== src/Ladder/Valid.antt =====
-- `Ladder::apply` keeps the ladder's invariant.
use bowst.Prelude.{
  ℕ, ◌+◌, ◌<◌, ◌≤◌, ◌≡◌, ◌≢◌, refl, sym, Ordering, true, false, Bool-cases, inl, inr, Option, none,
  some, List, [], ◌∷◌, length, drop, All, All-imp, compared, less, same, more, arith, subst, leb,
  ◌==◌, ok, err, Result-cases, length-drop_one, All-drop_le,
}
use bowst.Prelude.Int.{cmp_swap_gt, cmp_swap_lt, eq_of_cmp}
use bowst.Units.{Price, Qty, Side, buy, sell, is_zero}
use bowst.Ladder
use bowst.Ladder.{
  Level, Ladder, BookError, Applied, rank, worst_price, beyond_horizon, validate, apply, clear,
}
use bowst.Ladder.Order.{IsSorted, rank_refl, eq_of_rank, rank_swap_gt, rank_trans}
use bowst.Ladder.Spec.{
  put, length-put, length-delete, put-IsSorted, delete-IsSorted, All-put, All-delete,
}
use bowst.Ladder.Apply.{trim, trim_shape, updated_to, IsPositive, Known, IsValid, apply-updated_to}

-- The horizon test is the negation of `Known`.
pub Known-of_test : (l : Ladder) (p : Price) → beyond_horizon l p ≡ false → Known l.side l.horizon p
unfolding beyond_horizon
Known-of_test l p h = go l.side l.horizon h
  where
    go :
        (s : Side) (o : Option Price)
        → beyond_horizon (record l { side = s; horizon = o }) p ≡ false
        → Known s o p
    go s none h = tt
    go buy (some a) h = unfold rank in λ e. ground (arith, cmp_swap_lt p a e)
    go sell (some a) h = unfold rank in λ e. ground (arith, e)

pub unknown_of_test :
    (l : Ladder) (p p' : Price)
    → beyond_horizon l p ≡ true
    → Known l.side l.horizon p'
    → rank l.side p p' ≢ Ordering.eq
unfolding beyond_horizon
unknown_of_test l p p' h = go l.side l.horizon h
  where
    go :
        (s : Side) (o : Option Price)
        → beyond_horizon (record l { side = s; horizon = o }) p ≡ true
        → Known s o p'
        → rank s p p' ≢ Ordering.eq
    go s none h k e = cc
    go buy (some a) h k e = unfold rank in k (ground (arith, eq_of_cmp p p' e, cmp_swap_gt a p))
    go sell (some a) h k e = unfold rank in k (ground (arith, eq_of_cmp p' p e))

pub Known-trans :
    (s : Side) (o : Option Price) (a b : Price)
    → Known s o a
    → rank s b a ≢ Ordering.lt
    → Known s o b
Known-trans s none a b k h = tt
Known-trans s (some c) a b k h = λ e. elim (compared (rank s b a)) [
  | less g ↦ h g
  | same g ↦ k (subst (λ x. rank s x c ≡ Ordering.lt) (eq_of_rank s b a g) e)
  | more g ↦ k (rank_trans s a b c (rank_swap_gt s b a g) e)
]

Known-worst :
    (s : Side) (ls : List Level) → IsSorted s ls → All (λ x. Known s (worst_price ls) x.price) ls
Known-worst s [] h = tt
Known-worst s (l ∷ ls) (b, h) = (λ e. cc (rank_refl s l.price), All-imp (λ x g e. cc) ls b)

IsSorted-drop_one : (s : Side) (ls : List Level) → IsSorted s ls → IsSorted s (drop 1 ls)
IsSorted-drop_one s [] h = tt
IsSorted-drop_one s (l ∷ ls) (b, h) = h

pub trim-IsValid :
    (l : Ladder)
    → IsSorted l.side l.levels
    → All IsPositive l.levels
    → 0 < l.capacity
    → length l.levels ≤ l.capacity + 1
    → (leb (length l.levels) l.capacity ≡ true → All (λ x. Known l.side l.horizon x.price) l.levels)
    → IsValid (trim l)
unfolding trim
trim-IsValid l so po ro n w = elim (Bool-cases (leb (length l.levels) l.capacity)) [
  | inl fits ↦
      rw fits
        (record { sorted = so; positive = po; room = ro; bounded = ground arith; within = w fits })
  | inr full ↦
      let so' = IsSorted-drop_one l.side l.levels so in
      rw full (record {
        sorted = so';
        positive = All-drop_le IsPositive l.levels 0 1 (omega arith) po;
        room = ro;
        bounded = length-drop_one l.levels l.capacity n;
        within = Known-worst l.side (drop 1 l.levels) so';
      })
]

-- An update keeps the invariant.
updated_to-IsValid :
    (l : Ladder) (p : Price) (q : Qty)
    → IsValid l
    → validate l.side p q ≡ ok tt
    → beyond_horizon l p ≡ false
    → IsValid (updated_to l p q)
unfolding updated_to validate
updated_to-IsValid l p q v good near = elim (Bool-cases (is_zero q)) [
  | inl z ↦ rw z (record {
    sorted = delete-IsSorted l.side p l.levels v.sorted;
    positive = All-delete l.side p IsPositive l.levels v.positive;
    room = v.room;
    bounded = omega (arith, length-delete l.side p l.levels, v.bounded);
    within = All-delete l.side p _ l.levels v.within;
  })
  | inr nz ↦ rw nz (
      trim-IsValid (record l { levels = put l.side p q l.levels })
        (put-IsSorted l.side p q l.levels v.sorted)
        (All-put l.side p IsPositive q l.levels (ground arith) v.positive) v.room
        (omega (arith, length-put l.side p q l.levels, v.bounded))
        (λ _. All-put l.side p _ q l.levels (Known-of_test l p near) v.within))
]

-- What holds of the ladder on each branch of `apply` holds of its result.
pub apply_rule {κ} :
    (P : Ladder → Type κ) (l : Ladder) (p : Price) (q : Qty)
    → IsValid l
    → ((e : BookError) → validate l.side p q ≡ err e → P l)
    → (validate l.side p q ≡ ok tt → beyond_horizon l p ≡ true → P l)
    → (validate l.side p q ≡ ok tt → beyond_horizon l p ≡ false → P (updated_to l p q))
    → P (apply l p q).0
apply_rule P l p q v bad far near =
    subst P (sym (apply-updated_to l p q v)) (elim (Result-cases (validate l.side p q)) [
      | inr (e, h) ↦ rw h (bad e h)
      | inl (_, h) ↦ rw h (elim (Bool-cases (beyond_horizon l p)) [
        | inl b ↦ rw b (far h b)
        | inr b ↦ rw b (near h b)
      ])
    ])

-- From a valid ladder `apply` leads to a valid one, whatever price and quantity it is given, and
-- whether it accepts them or not.
pub apply-IsValid : (l : Ladder) (p : Price) (q : Qty) → IsValid l → IsValid (apply l p q).0
apply-IsValid l p q v =
    apply_rule IsValid l p q v (λ e h. v) (λ h b. v) (λ h b. updated_to-IsValid l p q v h b)

-- `apply` changes neither the side nor the capacity.
pub apply_shape :
    (l : Ladder) (p : Price) (q : Qty)
    → IsValid l
    → ((apply l p q).0.side ≡ l.side) × ((apply l p q).0.capacity ≡ l.capacity)
apply_shape l p q v =
    apply_rule (λ l'. (l'.side ≡ l.side) × (l'.capacity ≡ l.capacity)) l p q v (λ e h. (refl, refl))
      (λ h b. (refl, refl))
      (λ h b.
        unfold updated_to in
        ground (arith, trim_shape (record l { levels = put l.side p q l.levels })))

-- An empty ladder with room is valid.
pub clear-IsValid : (l : Ladder) → 0 < l.capacity → IsValid (clear l)
clear-IsValid l h = record {
  sorted = tt;
  positive = tt;
  room = h;
  bounded = omega arith;
  within = tt;
}

-- A new ladder has room, and is valid.
pub new-IsValid :
    (s : Side) (n : ℕ) (l : Ladder)
    → Ladder.new s n ≡ ok l
    → IsValid l × (l.side ≡ s) × (l.capacity ≡ n) × (l.levels ≡ [])
unfolding Ladder.new
new-IsValid s n l e = elim (Bool-cases (n == 0)) [
  | inl z ↦ absurd (ground arith)
  | inr nz ↦
      let fresh : Ladder = record { side = s; levels = []; capacity = n; horizon = none } in
      let made : fresh ≡ l = ground arith in
      subst (λ t. IsValid t × (t.side ≡ s) × (t.capacity ≡ n) × (t.levels ≡ [])) made
        (clear-IsValid fresh (ground arith), refl, refl, refl)
]
