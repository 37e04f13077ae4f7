-- ===== src/Ladder/Exact.antt =====
-- `Ladder::apply` keeps the ladder exact at the horizon and above.
use bowst.Prelude.{
  ◌<◌, ◌≡◌, ◌≢◌, refl, sym, ap, ◌∙◌, Ordering, false, Bool-cases, inl, inr, Option, none, some,
  List, [], ◌∷◌, length, drop, All, compared, less, same, more, arith, subst, leb, if◌then◌else◌,
  ok, All-drop_le,
}
use bowst.Units.{Price, Qty, Side, is_zero}
use bowst.Ladder.{Level, Ladder, Applied, rank, worst_price, beyond_horizon, validate, apply}
use bowst.Ladder.Order.{IsSorted, AllBetter, eq_of_rank, rank_swap_gt, rank_swap_lt, rank_trans}
use bowst.Ladder.Spec.{put, qty_at, at, qty_at-put, qty_at-delete, put-IsSorted, All-put}
use bowst.Ladder.Valid.{unknown_of_test, Known-trans, apply_rule}
use bowst.Ladder.Apply.{trim, updated_to, Known, IsValid}

-- The book of an unbounded ladder: the quantity at each price.
abbrev pub Quotes : Type 0
Quotes = Price → Option Qty

-- What an update does to it.
unfoldable pub quote : Side → Quotes → Price → Qty → Quotes
quote s b p q p' = at s p p' (if is_zero q then none else some q) (b p')

-- Every price at the horizon or better reads as in the unbounded book.
abbrev pub IsExact : Ladder → Quotes → Type 0
IsExact l b = (p : Price) → Known l.side l.horizon p → qty_at l.side p l.levels ≡ b p

worse_than :
    (s : Side) (w v p : Price)
    → rank s w v ≡ Ordering.lt
    → rank s p v ≢ Ordering.lt
    → rank s w p ≡ Ordering.lt
worse_than s w v p h k = elim (compared (rank s p v)) [
  | less g ↦ absurd (k g)
  | same g ↦ subst (λ x. rank s w x ≡ Ordering.lt) (sym (eq_of_rank s p v g)) h
  | more g ↦ rank_trans s w v p h (rank_swap_gt s p v g)
]

-- A price beyond the horizon is worse than all levels, so it goes to the front.
beyond-AllBetter :
    (s : Side) (h p : Price) (ls : List Level)
    → rank s p h ≡ Ordering.lt
    → All (λ x. Known s (some h) x.price) ls
    → AllBetter s p ls
beyond-AllBetter s h p [] far w = tt
beyond-AllBetter s h p (l ∷ ls) far (wl, w) =
    (rank_swap_lt s p l.price (worse_than s p h l.price far wl), beyond-AllBetter s h p ls far w)

put-AllBetter :
    (s : Side) (p : Price) (q : Qty) (ls : List Level)
    → AllBetter s p ls
    → put s p q ls ≡ record { price = p; qty = q } ∷ ls
unfolding put
put-AllBetter s p q [] b = refl
put-AllBetter s p q (l ∷ ls) (b, bs) = rw (b, put)

pub drop-put-Known :
    (s : Side) (o : Option Price) (p : Price) (q : Qty) (ls : List Level)
    → All (λ x. Known s o x.price) ls
    → All (λ x. Known s o x.price) (drop 1 (put s p q ls))
drop-put-Known s none p q ls w =
    All-drop_le _ (put s p q ls) 0 1 (omega arith) (All-put s p _ q ls tt w)
drop-put-Known s (some h) p q ls w = elim (compared (rank s p h)) [
  | less g ↦ rw (put-AllBetter s p q ls (beyond-AllBetter s h p ls g w)) w
  | same g ↦ All-drop_le _ (put s p q ls) 0 1 (omega arith) (All-put s p _ q ls (λ e. cc) w)
  | more g ↦ All-drop_le _ (put s p q ls) 0 1 (omega arith) (All-put s p _ q ls (λ e. cc) w)
]

drop_one-exact :
    (s : Side) (o : Option Price) (ls : List Level) (b : Quotes)
    → IsSorted s ls
    → 1 < length ls
    → All (λ x. Known s o x.price) (drop 1 ls)
    → ((p : Price) → Known s o p → qty_at s p ls ≡ b p)
    → (p : Price) → Known s (worst_price (drop 1 ls)) p
    → qty_at s p (drop 1 ls) ≡ b p
unfolding qty_at
drop_one-exact s o [] b so n w x p k = absurd (omega arith)
drop_one-exact s o (l ∷ []) b so n w x p k = absurd (omega arith)
drop_one-exact s o (l ∷ v ∷ vs) b ((lv, _), _) n (wv, _) x p k =
    let lp = worse_than s l.price v.price p (rank_swap_gt s v.price l.price lv) k in
    ground (arith, lp, x p (Known-trans s o v.price p wv k))

-- Dropping the worst level keeps every price above the new horizon exact.
pub trim-IsExact :
    (l : Ladder) (b : Quotes)
    → IsSorted l.side l.levels
    → 0 < l.capacity
    → All (λ x. Known l.side l.horizon x.price) (drop 1 l.levels)
    → IsExact l b
    → IsExact (trim l) b
unfolding trim
trim-IsExact l b so ro w x = elim (Bool-cases (leb (length l.levels) l.capacity)) [
  | inl fits ↦ rw fits x
  | inr full ↦ rw full (drop_one-exact l.side l.horizon l.levels b so (ground arith) w x)
]

updated_to-IsExact :
    (l : Ladder) (b : Quotes) (p : Price) (q : Qty)
    → IsValid l
    → beyond_horizon l p ≡ false
    → IsExact l b
    → IsExact (updated_to l p q) (quote l.side b p q)
unfolding updated_to quote
updated_to-IsExact l b p q v near x = elim (Bool-cases (is_zero q)) [
  | inl z ↦
      rw z λ p' k. qty_at-delete l.side p p' l.levels v.sorted ∙ ap (at l.side p p' none) (x p' k)
  | inr nz ↦ rw nz (
      trim-IsExact (record l { levels = put l.side p q l.levels })
        (λ p'. at l.side p p' (some q) (b p')) (put-IsSorted l.side p q l.levels v.sorted) v.room
        (drop-put-Known l.side l.horizon p q l.levels v.within)
        (λ p' k. qty_at-put l.side p p' q l.levels ∙ ap (at l.side p p' (some q)) (x p' k)))
]

pub validate_of_ok :
    (l : Ladder) (p : Price) (q : Qty) (r : Applied)
    → (apply l p q).1 ≡ ok r
    → validate l.side p q ≡ ok tt
unfolding apply
validate_of_ok l p q r e = ground arith

-- An update that `apply` accepts keeps the ladder exact: at every price at the horizon or better it
-- reads as the unbounded book after the same update, also where the worst level was dropped.
pub apply-IsExact :
    (l : Ladder) (b : Quotes) (p : Price) (q : Qty) (r : Applied)
    → IsValid l
    → IsExact l b
    → (apply l p q).1 ≡ ok r
    → IsExact (apply l p q).0 (quote l.side b p q)
apply-IsExact l b p q r v x e =
    apply_rule (λ l'. IsExact l' (quote l.side b p q)) l p q v
      (λ e' h. absurd (cc (validate_of_ok l p q r e)))
      (λ h far p' k. unfold quote in ground (arith, x p' k, unknown_of_test l p p' far k))
      (λ h near. updated_to-IsExact l b p q v near x)

-- From a valid ladder that is exact against an unbounded book at its horizon and better, an update
-- that `apply` accepts leads to one that is exact against the unbounded book after the same update:
-- every price at the new horizon or better reads as there, also when the worst level was dropped.
pub apply_reads :
    (l : Ladder) (b : Quotes) (p : Price) (q : Qty) (r : Applied) (p' : Price)
    → IsValid l
    → IsExact l b
    → (apply l p q).1 ≡ ok r
    → Known (apply l p q).0.side (apply l p q).0.horizon p'
    → qty_at (apply l p q).0.side p' (apply l p q).0.levels ≡ quote l.side b p q p'
apply_reads l b p q r p' v x e k = apply-IsExact l b p q r v x e p' k
