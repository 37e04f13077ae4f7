-- ===== src/Ladder/Load.antt =====
-- `Ladder::load`: a snapshot in any order, sorted once it fills the ladder or ends.
use bowst.Prelude.{
  ℕ, suc, ◌+◌, ◌<◌, ◌≤◌, ◌≡◌, ◌≢◌, refl, sym, ◌∙◌, Ordering, false, none, some, List, [], ◌∷◌, ◌++◌,
  length, All, All-imp, compared, less, same, more, arith, subst, leb, Result, ok, err,
}
use bowst.Prelude.Int.{cmp_refl}
use bowst.Units.{Price, Side}
use bowst.Ladder.{
  Level, Ladder, BookError, duplicate_level, rank, Found, found, missing, search, insert,
  insert_sorted, sort, duplicate, sort_and_check, load_full,
}
use bowst.Ladder.Order.{IsSorted, AllBetter-trans, locate, rank_refl, eq_of_rank, rank_swap_lt}
use bowst.Ladder.Search.{search-locate}
use bowst.Ladder.Spec.{
  put, qty_at, at, qty_at-put, put-IsSorted, All-put, qty_at-missing, length-put_missing,
}
use bowst.Ladder.Apply.{insert-stored, trim_shape, stored, IsPositive, Known, IsValid}
use bowst.Ladder.Valid.{Known-trans, trim-IsValid}
use bowst.Ladder.Exact.{IsExact, trim-IsExact, drop-put-Known}

-- From worst to best, equal prices allowed.
abbrev IsWeak : Side → List Level → Type 0
IsWeak s [] = Unit
IsWeak s (l ∷ ls) = All (λ x. Known s (some l.price) x.price) ls × IsWeak s ls

All-insert_sorted {κ} :
    (P : Level → Type κ) (s : Side) (x : Level) (ls : List Level)
    → P x
    → All P ls
    → All P (insert_sorted s x ls)
unfolding insert_sorted
All-insert_sorted P s x [] h a = (h, tt)
All-insert_sorted P s x (y ∷ ys) h (b, bs) = elim (compared (rank s x.price y.price)) [
  | less g ↦ rw (g, insert_sorted) (h, (b, bs))
  | same g ↦ rw (g, insert_sorted) (h, (b, bs))
  | more g ↦ rw (g, insert_sorted) (b, All-insert_sorted P s x ys h bs)
]

All-sort {κ} : (P : Level → Type κ) (s : Side) (ls : List Level) → All P ls → All P (sort s ls)
unfolding sort
All-sort P s [] a = tt
All-sort P s (x ∷ xs) (h, a) = All-insert_sorted P s x (sort s xs) h (All-sort P s xs a)

weak_front :
    (s : Side) (x y : Price) (ys : List Level)
    → rank s y x ≢ Ordering.lt
    → All (λ z. Known s (some y) z.price) ys
    → All (λ z. Known s (some x) z.price) ys
weak_front s x y ys yx = All-imp (λ z. Known-trans s (some x) y z.price yx) ys

insert_sorted-IsWeak :
    (s : Side) (x : Level) (ls : List Level) → IsWeak s ls → IsWeak s (insert_sorted s x ls)
unfolding insert_sorted
insert_sorted-IsWeak s x [] w = (tt, tt)
insert_sorted-IsWeak s x (y ∷ ys) (wy, w) =
    let yx : rank s x.price y.price ≢ Ordering.gt → rank s y.price x.price ≢ Ordering.lt =
      λ h e. h (rank_swap_lt s y.price x.price e) in
    elim (compared (rank s x.price y.price)) [
      | less g ↦
          let h = yx (λ e. cc) in
          rw (g, insert_sorted) ((h, weak_front s x.price y.price ys h wy), (wy, w))
      | same g ↦
          let h = yx (λ e. cc) in
          rw (g, insert_sorted) ((h, weak_front s x.price y.price ys h wy), (wy, w))
      | more g ↦
          rw (g, insert_sorted)
            (
              All-insert_sorted (λ z. Known s (some y.price) z.price) s x ys (λ e. cc) wy,
              insert_sorted-IsWeak s x ys w,
            )
    ]

sort-IsWeak : (s : Side) (ls : List Level) → IsWeak s (sort s ls)
unfolding sort
sort-IsWeak s [] = tt
sort-IsWeak s (x ∷ xs) = insert_sorted-IsWeak s x (sort s xs) (sort-IsWeak s xs)

-- Without two equal neighbours the order is strict.
IsSorted-of_duplicate :
    (s : Side) (ls : List Level) → IsWeak s ls → duplicate ls ≡ none → IsSorted s ls
unfolding duplicate
IsSorted-of_duplicate s [] w e = tt
IsSorted-of_duplicate s (a ∷ []) w e = (tt, tt)
IsSorted-of_duplicate s (a ∷ b ∷ ls) ((ba, _), w) e =
    let so = IsSorted-of_duplicate s (b ∷ ls) w (ground arith) in
    let gt : rank s b.price a.price ≡ Ordering.gt =
      ground (arith, eq_of_rank s b.price a.price, cmp_refl a.price, ba) in
    ((gt, AllBetter-trans s a.price b.price ls gt so.0), so)

qty_at-insert_sorted :
    (s : Side) (p : Price) (x : Level) (ls : List Level)
    → qty_at s p (insert_sorted s x ls) ≡ at s x.price p (some x.qty) (qty_at s p ls)
unfolding qty_at insert_sorted
qty_at-insert_sorted s p x [] = refl
qty_at-insert_sorted s p x (y ∷ ys) = ground (
  arith,
  qty_at-insert_sorted s p x ys,
  eq_of_rank s y.price p,
  eq_of_rank s x.price p,
  rank_refl s p,
)

qty_at-sort : (s : Side) (p : Price) (ls : List Level) → qty_at s p (sort s ls) ≡ qty_at s p ls
unfolding sort qty_at
qty_at-sort s p [] = refl
qty_at-sort s p (x ∷ xs) =
    qty_at-insert_sorted s p x (sort s xs) ∙ ground (arith, qty_at-sort s p xs)

length-insert_sorted :
    (s : Side) (x : Level) (ls : List Level) → length (insert_sorted s x ls) ≡ suc (length ls)
unfolding insert_sorted
length-insert_sorted s x [] = refl
length-insert_sorted s x (y ∷ ys) = ground (arith, length-insert_sorted s x ys)

length-sort : (s : Side) (ls : List Level) → length (sort s ls) ≡ length ls
unfolding sort
length-sort s [] = refl
length-sort s (x ∷ xs) = omega (arith, length-insert_sorted s x (sort s xs), length-sort s xs)

pub length-sort_and_check : (l : Ladder) → length (sort_and_check l).0.levels ≡ length l.levels
unfolding sort_and_check
length-sort_and_check l = length-sort l.side l.levels

-- A sorted snapshot without two equal neighbours is a valid ladder that reads as the snapshot.
abbrev pub Loaded : Side → ℕ → List Level → Ladder → Type 0
Loaded s n seen l = IsValid l × (l.side ≡ s) × (l.capacity ≡ n) × IsExact l (λ p. qty_at s p seen)

pub sort_and_check-Loaded :
    (l : Ladder)
    → All IsPositive l.levels
    → 0 < l.capacity
    → length l.levels ≤ l.capacity
    → l.horizon ≡ none
    → (sort_and_check l).1 ≡ ok tt
    → Loaded l.side l.capacity l.levels (sort_and_check l).0
unfolding sort_and_check
sort_and_check-Loaded l po ro n h e =
    let ls = sort l.side l.levels in
    let nodup : duplicate ls ≡ none = ground arith in
    (
      record {
        sorted = IsSorted-of_duplicate l.side ls (sort-IsWeak l.side l.levels) nodup;
        positive = All-sort IsPositive l.side l.levels po;
        room = ro;
        bounded = omega (arith, length-sort l.side l.levels);
        within =
            All-imp (λ x _. subst (λ o. Known l.side o x.price) (sym h) tt) ls
              (All-sort IsPositive l.side l.levels po);
      },
      refl,
      refl,
      λ p k. qty_at-sort l.side p l.levels,
    )

qty_at-append_one :
    (s : Side) (p : Price) (xs : List Level) (x : Level)
    → qty_at s p (xs ++ (x ∷ []))
      ≡ (elim (qty_at s p xs) [ some q ↦ some q | none ↦ at s x.price p (some x.qty) none ])
unfolding qty_at
qty_at-append_one s p [] x = refl
qty_at-append_one s p (y ∷ ys) x = ground (arith, qty_at-append_one s p ys x)

-- A new level stored in a full ladder: the worst of the old levels and the new one is dropped.
stored_full :
    (l : Ladder) (seen : List Level) (x : Level) (j : ℕ)
    → IsPositive x
    → IsValid l
    → IsExact l (λ p. qty_at l.side p seen)
    → length l.levels ≡ l.capacity
    → locate l.side x.price l.levels 0 ≡ missing j
    → Loaded l.side l.capacity (seen ++ (x ∷ [])) (stored l x.price x.qty)
      × (length (stored l x.price x.qty).levels ≡ l.capacity)
stored_full l seen x j po v ex full e =
    let s = l.side in
    let p = x.price in
    let ls' : List Level = put s p x.qty l.levels in
    let l' : Ladder = record l { levels = ls' } in
    let n : length ls' ≡ l.capacity + 1 =
      omega (arith, length-put_missing s p x.qty l.levels 0 j e) in
    let over : leb (length ls') l.capacity ≡ false = ground arith in
    let none_at : qty_at s p l.levels ≡ none = qty_at-missing s p l.levels 0 j v.sorted e in
    let exact : IsExact l' (λ p'. qty_at s p' (seen ++ (x ∷ []))) = λ p' k. ground (
      arith,
      qty_at-put s p p' x.qty l.levels,
      qty_at-append_one s p' seen x,
      ex p' k,
      eq_of_rank s p p',
      none_at,
    ) in
    (
      (
        trim-IsValid l' (put-IsSorted s p x.qty l.levels v.sorted)
            (All-put s p IsPositive x.qty l.levels po v.positive) v.room (omega arith) (λ h. cc),
        (trim_shape l').0,
        (trim_shape l').1,
        trim-IsExact l' _ (put-IsSorted s p x.qty l.levels v.sorted) v.room
            (drop-put-Known s l.horizon p x.qty l.levels v.within) exact,
      ),
      omega (arith, (trim_shape l').2),
    )

-- The next level of a snapshot, put into a full ladder.
pub load_full-Loaded :
    (l : Ladder) (seen : List Level) (x : Level)
    → IsPositive x
    → IsValid l
    → IsExact l (λ p. qty_at l.side p seen)
    → length l.levels ≡ l.capacity
    → (load_full l x).1 ≡ ok tt
    → Loaded l.side l.capacity (seen ++ (x ∷ [])) (load_full l x).0
      × (length (load_full l x).0.levels ≡ l.capacity)
unfolding load_full
load_full-Loaded l seen x po v ex full e =
    go (search l x.price) (sym (search-locate l x.price v.sorted)) e
  where
    step : Found → Ladder × Result (Unit {0}) BookError
    step f = elim f [
      | found _ ↦ (l, err (duplicate_level l.side x.price))
      | missing index ↦ ((insert l index x).0, ok tt)
    ]

    go :
        (f : Found)
        → locate l.side x.price l.levels 0 ≡ f
        → (step f).1 ≡ ok tt
        → Loaded l.side l.capacity (seen ++ (x ∷ [])) (step f).0
          × (length (step f).0.levels ≡ l.capacity)
    go (found j) e h = absurd (cc)
    go (missing j) e h =
        subst (λ t. Loaded l.side l.capacity (seen ++ (x ∷ [])) t × (length t.levels ≡ l.capacity))
          (sym (insert-stored l x.price x.qty j v e)) (stored_full l seen x j po v ex full e)
