-- ===== src/Ladder/Search.antt =====
-- `Ladder::search`, the scan of the top levels and the binary search below it, against `locate`.
use bowst.Prelude.{
  ℕ, zero, suc, ◌+◌, ◌-◌, ◌/◌, ◌<◌, ◌≤◌, ◌≡◌, refl, sym, ap, ◌∙◌, min, Ordering, Bool-cases, inl,
  inr, none, some, List, [], ◌∷◌, ◌++◌, reverse, length, get_elem?, take, drop, ◌≢◌, drop-all,
  drop-get_elem?, get_elem?-split, get_elem?-lt, All-drop_le, length-take, length-reverse,
  reverse-drop-reverse, ltb, arith, compared, less, same, more, subst,
}
use mathlib.Core.List.{reverse-append, reverse-reverse}
use bowst.Units.{Price, Side}
use bowst.Ladder.{
  Level, Ladder, rank, found, missing, scan, rank_at, bisect, binary_search, search, top_scan,
}
use bowst.Ladder.Order.{
  eq_of_rank, IsSorted, IsSorted-append, AllWorse, AllBetter, AllWorse-trans, AllBetter-trans,
  locate, locate-append_worse, locate-append_better,
}

rank_at_lem :
    (s : Side) (p : Price) (ls : List Level) (i : ℕ) (l : Level)
    → get_elem? ls i ≡ some l
    → rank_at s p ls i ≡ rank s l.price p
unfolding rank_at
rank_at_lem s p ls i l e = rw (e, rank_at)

module _ (s : Side) (p : Price) where
  -- The position decided by one level, all before it worse than it.
  locate-snoc_eq :
      (xs : List Level) (l : Level) (k : ℕ)
      → AllWorse s l.price xs
      → locate s p (xs ++ (l ∷ [])) k ≡ (elim (rank s l.price p) [
        | Ordering.eq ↦ found (k + length xs)
        | Ordering.lt ↦ missing (k + length xs + 1)
        | Ordering.gt ↦ locate s p xs k
      ])
  unfolding locate
  locate-snoc_eq xs l k w = elim (compared (rank s l.price p)) [
    | less h ↦
        rw (h, locate-append_worse s p xs (l ∷ []) k (AllWorse-trans s p l.price xs h w))
          (rw (h, locate))
    | same h ↦
        let w' : AllWorse s p xs = subst (λ q. AllWorse s q xs) (eq_of_rank s l.price p h) w in
        rw (h, locate-append_worse s p xs (l ∷ []) k w') (rw (h, locate))
    | more h ↦ rw h (locate-append_better s p xs (l ∷ []) k (h, tt))
  ]

  scan_lem :
      (n offset len : ℕ) (zs : List Level)
      → IsSorted s (reverse zs)
      → len ≡ offset + length zs
      → (elim (scan s p len offset (take n zs)) [
        | some r ↦ r
        | none ↦ locate s p (reverse (drop n zs)) 0
      ])
        ≡ locate s p (reverse zs) 0
  unfolding scan
  scan_lem zero offset len zs h e = refl
  scan_lem (suc n) offset len [] h e = refl
  scan_lem (suc n) offset len (z ∷ zs) h e =
      let split : reverse (z ∷ zs) ≡ reverse zs ++ (z ∷ []) = reverse-append (z ∷ []) zs in
      let (sorted, worse, _) = IsSorted-append s (reverse zs) z [] (subst (IsSorted s) split h) in
      ground (
        arith,
        ap (λ t. locate s p t 0) split,
        locate-snoc_eq (reverse zs) z 0 worse,
        scan_lem n (offset + 1) len zs sorted (omega arith),
        length-reverse zs,
      )

  locate-AllBetter : (xs : List Level) (k : ℕ) → AllBetter s p xs → locate s p xs k ≡ missing k
  unfolding locate
  locate-AllBetter [] k h = refl
  locate-AllBetter (x ∷ xs) k (h, hs) = rw (h, locate)

  -- The position that one level decides, all before it worse and all behind it better.
  locate_at :
      (xs : List Level) (b : ℕ) (l : Level)
      → get_elem? xs b ≡ some l
      → b < length xs
      → AllWorse s p (take b xs)
      → AllBetter s p (drop (b + 1) xs)
      → locate s p xs 0 ≡ (elim (rank s l.price p) [
        | Ordering.eq ↦ found b
        | Ordering.lt ↦ missing (b + 1)
        | Ordering.gt ↦ missing b
      ])
  unfolding locate
  locate_at xs b l e lt w better =
      let n : 0 + length (take b xs) ≡ b = omega (arith, length-take b xs) in
      ap (λ t. locate s p t 0) (get_elem?-split xs b l e)
      ∙ locate-append_worse s p (take b xs) (l ∷ drop (b + 1) xs) 0 w
      ∙ ap (locate s p (l ∷ drop (b + 1) xs)) n
      ∙ ground (arith, locate-AllBetter (drop (b + 1) xs) (b + 1) better)

  -- What the halving loop leaves: one position, with the price at it or beside it.
  record Narrowed (ls : List Level) (b : ℕ) : Type 0 where
    inside : b < length ls
    worse : AllWorse s p (take b ls)
    better : AllBetter s p (drop (b + 1) ls)

  -- One comparison at `mid` says where the price lies.
  mid_gt :
      (ls : List Level) (mid : ℕ) (l : Level)
      → IsSorted s ls
      → get_elem? ls mid ≡ some l
      → rank s l.price p ≡ Ordering.gt
      → AllBetter s p (drop mid ls)
  mid_gt ls mid l sorted e h =
      let split = get_elem?-split ls mid l e in
      let parts =
        IsSorted-append s (take mid ls) l (drop (mid + 1) ls) (subst (IsSorted s) split sorted) in
      subst (AllBetter s p) (sym (drop-get_elem? ls mid l e))
        (h, AllBetter-trans s p l.price (drop (mid + 1) ls) h parts.2)

  mid_le :
      (ls : List Level) (mid : ℕ) (l : Level)
      → IsSorted s ls
      → get_elem? ls mid ≡ some l
      → rank s l.price p ≢ Ordering.gt
      → AllWorse s p (take mid ls)
  mid_le ls mid l sorted e h =
      let split = get_elem?-split ls mid l e in
      let parts =
        IsSorted-append s (take mid ls) l (drop (mid + 1) ls) (subst (IsSorted s) split sorted) in
      elim (compared (rank s l.price p)) [
        | less g ↦ AllWorse-trans s p l.price (take mid ls) g parts.1
        | same g ↦ subst (λ q. AllWorse s q (take mid ls)) (eq_of_rank s l.price p g) parts.1
        | more g ↦ absurd (h g)
      ]

  bisect_lem :
      (fuel : ℕ) (ls : List Level) (base size : ℕ)
      → IsSorted s ls
      → 0 < size
      → size ≤ fuel
      → base + size ≤ length ls
      → AllWorse s p (take base ls)
      → AllBetter s p (drop (base + size) ls)
      → Narrowed ls (bisect fuel s p ls base size)
  unfolding bisect
  bisect_lem zero ls base size sorted pos le fits w b = absurd (omega arith)
  bisect_lem (suc fuel) ls base size sorted pos le fits w b = elim (Bool-cases (ltb 1 size)) [
    | inr done ↦
        let one : base + size ≡ base + 1 = ground arith in
        let b' : AllBetter s p (drop (base + 1) ls) =
          subst (λ k. AllBetter s p (drop k ls)) one b in
        rw done (record { inside = omega arith; worse = w; better = b' })
    | inl again ↦
        let big : 1 < size = ground arith in
        let mid = base + size / 2 in
        let (l, e) = get_elem?-lt ls mid (omega arith) in
        let end : base + size ≡ mid + (size - size / 2) = omega arith in
        let upper : rank s l.price p ≢ Ordering.gt
            → Narrowed ls (bisect fuel s p ls mid (size - size / 2)) =
          λ ne.
            bisect_lem fuel ls mid (size - size / 2) sorted (omega arith) (omega arith)
              (omega arith) (mid_le ls mid l sorted e ne)
              (subst (λ k. AllBetter s p (drop k ls)) end b) in
        rw again (elim (compared (rank s l.price p)) [
          | more g ↦
              rw (rank_at_lem s p ls mid l e, g)
                (bisect_lem fuel ls base (size - size / 2) sorted (omega arith) (omega arith)
                  (omega arith) w
                  (All-drop_le _ ls mid (base + (size - size / 2)) (omega arith)
                    (mid_gt ls mid l sorted e g)))
          | less g ↦ rw (rank_at_lem s p ls mid l e, g) (upper (λ x. cc))
          | same g ↦ rw (rank_at_lem s p ls mid l e, g) (upper (λ x. cc))
        ])
  ]

  narrowed_lem :
      (ls : List Level) (b : ℕ)
      → Narrowed ls b
      → (elim (rank_at s p ls b) [
        | Ordering.eq ↦ found b
        | Ordering.lt ↦ missing (b + 1)
        | Ordering.gt ↦ missing b
      ])
        ≡ locate s p ls 0
  narrowed_lem ls b n =
      let (l, e) = get_elem?-lt ls b n.inside in
      rw (rank_at_lem s p ls b l e) (sym (locate_at ls b l e n.inside n.worse n.better))

  pub binary_search-locate :
      (ls : List Level) → IsSorted s ls → binary_search s p ls ≡ locate s p ls 0
  unfolding binary_search
  binary_search-locate [] sorted = unfold locate in refl
  binary_search-locate (x ∷ xs) sorted =
      let ls : List Level = x ∷ xs in
      let end : drop (0 + length ls) ls ≡ [] = drop-all ls (0 + length ls) (omega arith) in
      narrowed_lem ls (bisect (length ls) s p ls 0 (length ls)) (
        bisect_lem (length ls) ls 0 (length ls) sorted (omega arith) (omega arith) (omega arith) tt
          (subst (AllBetter s p) (sym end) tt))

IsSorted-take : (s : Side) (n : ℕ) (xs : List Level) → IsSorted s xs → IsSorted s (take n xs)
IsSorted-take s zero xs h = tt
IsSorted-take s (suc n) [] h = tt
IsSorted-take s (suc n) (x ∷ xs) (b, h) = (front n xs b, IsSorted-take s n xs h)
  where
    front : (n : ℕ) (ys : List Level) → AllBetter s x.price ys → AllBetter s x.price (take n ys)
    front zero ys h = tt
    front (suc n) [] h = tt
    front (suc n) (y ∷ ys) (h, hs) = (h, front n ys hs)

-- On sorted levels the scan of the top and the binary search below it find what one walk finds.
pub search-locate :
    (l : Ladder) (p : Price) → IsSorted l.side l.levels → search l p ≡ locate l.side p l.levels 0
unfolding search
search-locate l p sorted = ground (
  arith,
  scan_lem s p n 0 len (reverse ls) (subst (IsSorted s) (sym (reverse-reverse ls)) sorted)
      (omega (arith, length-reverse ls)),
  ap (λ t. locate s p t 0) (reverse-reverse ls),
  ap (λ t. locate s p t 0) (reverse-drop-reverse ls n (len - n) (omega arith)),
  binary_search-locate s p (take (len - n) ls) (IsSorted-take s (len - n) ls sorted),
)
  where
    s : Side
    s = l.side

    ls : List Level
    ls = l.levels

    len : ℕ
    len = length l.levels

    n : ℕ
    n = min (length l.levels) top_scan
