-- ===== src/Ladder/Order.antt =====
-- The order of one side, sorted levels, and the position of a price in them.
use bowst.Prelude.{
  ℕ, ◌+◌, ◌≡◌, refl, sym, ap, ◌∙◌, Ordering, List, [], ◌∷◌, ◌++◌, length, All, arith,
}
use bowst.Prelude.Int.{cmp_refl, eq_of_cmp, cmp_swap_gt, cmp_swap_lt, cmp_trans}
use bowst.Units.{Price, Side, buy, sell}
use bowst.Ladder.{Level, rank, Found, found, missing}

pub rank_refl : (s : Side) (a : Price) → rank s a a ≡ Ordering.eq
unfolding rank
rank_refl buy a = cmp_refl a
rank_refl sell a = cmp_refl a

pub eq_of_rank : (s : Side) (a b : Price) → rank s a b ≡ Ordering.eq → a ≡ b
unfolding rank
eq_of_rank buy a b h = eq_of_cmp a b h
eq_of_rank sell a b h = sym (eq_of_cmp b a h)

pub rank_swap_gt : (s : Side) (a b : Price) → rank s a b ≡ Ordering.gt → rank s b a ≡ Ordering.lt
unfolding rank
rank_swap_gt buy a b h = cmp_swap_gt a b h
rank_swap_gt sell a b h = cmp_swap_gt b a h

pub rank_swap_lt : (s : Side) (a b : Price) → rank s a b ≡ Ordering.lt → rank s b a ≡ Ordering.gt
unfolding rank
rank_swap_lt buy a b h = cmp_swap_lt a b h
rank_swap_lt sell a b h = cmp_swap_lt b a h

pub rank_trans :
    (s : Side) (a b c : Price)
    → rank s a b ≡ Ordering.lt
    → rank s b c ≡ Ordering.lt
    → rank s a c ≡ Ordering.lt
unfolding rank
rank_trans buy a b c h k = cmp_trans a b c h k
rank_trans sell a b c h k = cmp_trans c b a k h

-- Every level is worse than the price, or better.
abbrev pub AllWorse : Side → Price → List Level → Type 0
AllWorse s p = All (λ l. rank s l.price p ≡ Ordering.lt)

abbrev pub AllBetter : Side → Price → List Level → Type 0
AllBetter s p = All (λ l. rank s l.price p ≡ Ordering.gt)

-- Strictly from worst to best.
abbrev pub IsSorted : Side → List Level → Type 0
IsSorted s [] = Unit
IsSorted s (l ∷ ls) = AllBetter s l.price ls × IsSorted s ls

-- Where a price stands, by one walk from the worst level: the plain specification of `search`.
unfoldable pub locate : Side → Price → List Level → ℕ → Found
locate s p [] k = missing k
locate s p (l ∷ ls) k =
    let rest = locate s p ls (k + 1) in
    elim (rank s l.price p) [ Ordering.eq ↦ found k | Ordering.gt ↦ missing k | Ordering.lt ↦ rest ]

module _ (s : Side) where
  pub AllBetter-trans :
      (p q : Price) (ls : List Level)
      → rank s q p ≡ Ordering.gt
      → AllBetter s q ls
      → AllBetter s p ls
  AllBetter-trans p q [] h b = tt
  AllBetter-trans p q (l ∷ ls) h (b, bs) = (
    rank_swap_lt s p l.price
        (rank_trans s p q l.price (rank_swap_gt s q p h) (rank_swap_gt s l.price q b)),
    AllBetter-trans p q ls h bs,
  )

  pub AllWorse-trans :
      (p q : Price) (ls : List Level) → rank s q p ≡ Ordering.lt → AllWorse s q ls → AllWorse s p ls
  AllWorse-trans p q [] h b = tt
  AllWorse-trans p q (l ∷ ls) h (b, bs) = (rank_trans s l.price q p b h, AllWorse-trans p q ls h bs)

  pub IsSorted-append :
      (xs : List Level) (l : Level) (ys : List Level)
      → IsSorted s (xs ++ (l ∷ ys))
      → IsSorted s xs × AllWorse s l.price xs × AllBetter s l.price ys
  IsSorted-append [] l ys h = (tt, tt, h.0)
  IsSorted-append (x ∷ xs) l ys (b, h) =
      let (sx, wx, bs) = IsSorted-append xs l ys h in
      ((front xs b, sx), (rank_swap_gt s l.price x.price (middle xs b), wx), bs)
    where
      front : (zs : List Level) → AllBetter s x.price (zs ++ (l ∷ ys)) → AllBetter s x.price zs
      front [] h = tt
      front (z ∷ zs) (h, hs) = (h, front zs hs)

      middle :
          (zs : List Level)
          → AllBetter s x.price (zs ++ (l ∷ ys))
          → rank s l.price x.price ≡ Ordering.gt
      middle [] h = h.0
      middle (z ∷ zs) (h, hs) = middle zs hs

  -- Levels behind the ones worse than the price decide.
  pub locate-append_worse :
      (p : Price) (xs ys : List Level) (k : ℕ)
      → AllWorse s p xs
      → locate s p (xs ++ ys) k ≡ locate s p ys (k + length xs)
  unfolding locate
  locate-append_worse p [] ys k h = ap (locate s p ys) (omega arith)
  locate-append_worse p (x ∷ xs) ys k (h, hs) =
      rw (h, locate) (locate-append_worse p xs ys (k + 1) hs ∙ ap (locate s p ys) (omega arith))

  pub locate-append_better :
      (p : Price) (xs ys : List Level) (k : ℕ)
      → AllBetter s p ys
      → locate s p (xs ++ ys) k ≡ locate s p xs k
  unfolding locate
  locate-append_better p [] [] k h = refl
  locate-append_better p [] (y ∷ ys) k (h, hs) = rw (h, locate)
  locate-append_better p (x ∷ xs) ys k h = ground (arith, locate-append_better p xs ys (k + 1) h)
