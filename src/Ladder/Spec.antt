-- ===== src/Ladder/Spec.antt =====
-- What a sorted side promises: storing and deleting a price by one walk, and reading a price.
use bowst.Prelude.{
  ℕ, zero, suc, ◌+◌, ◌-◌, ◌<◌, ◌≤◌, ◌≡◌, refl, sym, ap, Ordering, Option, none, some, List, [], ◌∷◌,
  length, insert_at, remove_at, All, compared, less, same, more, arith, subst,
}
use bowst.Units.{Price, Qty, Side}
use bowst.Ladder.{Level, rank, found, missing, set_qty}
use bowst.Ladder.Order.{IsSorted, AllBetter, AllBetter-trans, locate, eq_of_rank, rank_swap_lt}

module _ (s : Side) (p : Price) where
  unfoldable pub put : Qty → List Level → List Level
  put q [] = record { price = p; qty = q } ∷ []
  put q (l ∷ ls) =
      let rest = put q ls in
      elim (rank s l.price p) [
        | Ordering.eq ↦ record l { qty = q } ∷ ls
        | Ordering.gt ↦ record { price = p; qty = q } ∷ l ∷ ls
        | Ordering.lt ↦ l ∷ rest
      ]

  unfoldable pub delete : List Level → List Level
  delete [] = []
  delete (l ∷ ls) =
      let rest = delete ls in
      elim (rank s l.price p) [ Ordering.eq ↦ ls | Ordering.gt ↦ l ∷ ls | Ordering.lt ↦ l ∷ rest ]

  unfoldable pub qty_at : List Level → Option Qty
  qty_at [] = none
  qty_at (l ∷ ls) =
      let rest = qty_at ls in elim (rank s l.price p) [ Ordering.eq ↦ some l.qty | _ ↦ rest ]

  -- The indexed edits at the position of the price are the walks.
  abbrev AtFound : ℕ → ℕ → List Level → Type 0
  AtFound j k ls =
      (k ≤ j)
      × (j < k + length ls)
      × (remove_at ls (j - k) ≡ delete ls)
      × ((q : Qty) → set_qty ls (j - k) q ≡ put q ls)

  pub locate_found : (ls : List Level) (k j : ℕ) → locate s p ls k ≡ found j → AtFound j k ls
  unfolding locate put delete
  locate_found [] k j e = absurd (cc)
  locate_found (l ∷ ls) k j e = elim (compared (rank s l.price p)) [
    | same h ↦
        let kj : k ≡ j = ground arith in
        let e' : j - k ≡ zero = omega arith in
        rw (e', h, put, delete) (omega arith, omega arith, refl, λ q. refl)
    | more h ↦ absurd (ground arith)
    | less h ↦
        let ih = locate_found ls (k + 1) j (ground arith) in
        let e' : j - k ≡ suc (j - (k + 1)) = omega arith in
        rw (e', h, put, delete)
          (omega arith, omega arith, ap (λ t. l ∷ t) ih.2, λ q. ap (λ t. l ∷ t) (ih.3 q))
  ]

  abbrev AtMissing : ℕ → ℕ → List Level → Type 0
  AtMissing j k ls =
      (k ≤ j)
      × (j ≤ k + length ls)
      × (delete ls ≡ ls)
      × ((q : Qty) → insert_at ls (j - k) (record { price = p; qty = q }) ≡ put q ls)

  pub locate_missing : (ls : List Level) (k j : ℕ) → locate s p ls k ≡ missing j → AtMissing j k ls
  unfolding locate put delete
  locate_missing [] k j e =
      let kj : k ≡ j = ground arith in
      let e' : j - k ≡ zero = omega arith in rw e' (omega arith, omega arith, refl, λ q. refl)
  locate_missing (l ∷ ls) k j e = elim (compared (rank s l.price p)) [
    | same h ↦ absurd (ground arith)
    | more h ↦
        let kj : k ≡ j = ground arith in
        let e' : j - k ≡ zero = omega arith in
        rw (e', h, put, delete) (omega arith, omega arith, refl, λ q. refl)
    | less h ↦
        let ih = locate_missing ls (k + 1) j (ground arith) in
        let e' : j - k ≡ suc (j - (k + 1)) = omega arith in
        rw (e', h, put, delete)
          (omega arith, omega arith, ap (λ t. l ∷ t) ih.2, λ q. ap (λ t. l ∷ t) (ih.3 q))
  ]

  pub AllBetter-put :
      (a : Price) (q : Qty) (ls : List Level)
      → rank s p a ≡ Ordering.gt
      → AllBetter s a ls
      → AllBetter s a (put q ls)
  unfolding put
  AllBetter-put a q [] h b = (h, tt)
  AllBetter-put a q (l ∷ ls) h (b, bs) = ground (arith, AllBetter-put a q ls h bs)

  pub AllBetter-delete :
      (a : Price) (ls : List Level) → AllBetter s a ls → AllBetter s a (delete ls)
  unfolding delete
  AllBetter-delete a [] b = tt
  AllBetter-delete a (l ∷ ls) (b, bs) = ground (arith, AllBetter-delete a ls bs)

  pub put-IsSorted : (q : Qty) (ls : List Level) → IsSorted s ls → IsSorted s (put q ls)
  unfolding put
  put-IsSorted q [] h = (tt, tt)
  put-IsSorted q (l ∷ ls) (b, h) = elim (compared (rank s l.price p)) [
    | same g ↦ rw (g, put) (b, h)
    | more g ↦ rw (g, put) ((g, AllBetter-trans s p l.price ls g b), (b, h))
    | less g ↦
        rw (g, put) (AllBetter-put l.price q ls (rank_swap_lt s l.price p g) b, put-IsSorted q ls h)
  ]

  pub delete-IsSorted : (ls : List Level) → IsSorted s ls → IsSorted s (delete ls)
  unfolding delete
  delete-IsSorted [] h = tt
  delete-IsSorted (l ∷ ls) (b, h) = elim (compared (rank s l.price p)) [
    | same g ↦ rw (g, delete) h
    | more g ↦ rw (g, delete) (b, h)
    | less g ↦ rw (g, delete) (AllBetter-delete l.price ls b, delete-IsSorted ls h)
  ]

  pub All-put {κ} :
      (P : Level → Type κ) (q : Qty) (ls : List Level)
      → P (record { price = p; qty = q })
      → All P ls
      → All P (put q ls)
  unfolding put
  All-put P q [] h b = (h, tt)
  All-put P q (l ∷ ls) h (b, bs) = elim (compared (rank s l.price p)) [
    | same g ↦
        let e = sym (eq_of_rank s l.price p g) in
        rw (g, put) (subst (λ a. P (record { price = a; qty = q })) e h, bs)
    | more g ↦ rw (g, put) (h, (b, bs))
    | less g ↦ rw (g, put) (b, All-put P q ls h bs)
  ]

  pub All-delete {κ} : (P : Level → Type κ) (ls : List Level) → All P ls → All P (delete ls)
  unfolding delete
  All-delete P [] b = tt
  All-delete P (l ∷ ls) (b, bs) = elim (compared (rank s l.price p)) [
    | same g ↦ rw (g, delete) bs
    | more g ↦ rw (g, delete) (b, bs)
    | less g ↦ rw (g, delete) (b, All-delete P ls bs)
  ]

  pub length-delete : (ls : List Level) → length (delete ls) ≤ length ls
  unfolding delete
  length-delete [] = omega arith
  length-delete (l ∷ ls) = ground (arith, length-delete ls)

  pub length-put :
      (q : Qty) (ls : List Level)
      → (length ls ≤ length (put q ls)) × (length (put q ls) ≤ length ls + 1)
  unfolding put
  length-put q [] = omega arith
  length-put q (l ∷ ls) = ground (arith, length-put q ls)

  pub qty_at-AllBetter : (ls : List Level) → AllBetter s p ls → qty_at ls ≡ none
  unfolding qty_at
  qty_at-AllBetter [] h = refl
  qty_at-AllBetter (l ∷ ls) (h, hs) = rw (h, qty_at) (qty_at-AllBetter ls hs)

module _ (s : Side) (p p' : Price) where
  -- A function from prices, changed at the price `p`.
  abbrev pub at : {A : Type 0} → A → A → A
  at x y = elim (rank s p p') [ Ordering.eq ↦ x | _ ↦ y ]

  pub qty_at-put :
      (q : Qty) (ls : List Level) → qty_at s p' (put s p q ls) ≡ at (some q) (qty_at s p' ls)
  unfolding qty_at put
  qty_at-put q [] = refl
  qty_at-put q (l ∷ ls) = elim (compared (rank s l.price p)) [
    | same g ↦ ground (arith, eq_of_rank s l.price p g)
    | more g ↦ rw (g, put)
    | less g ↦ ground (arith, eq_of_rank s p p', qty_at-put q ls)
  ]

  pub qty_at-delete :
      (ls : List Level) → IsSorted s ls → qty_at s p' (delete s p ls) ≡ at none (qty_at s p' ls)
  unfolding qty_at delete
  qty_at-delete [] h = ground arith
  qty_at-delete (l ∷ ls) (b, h) = elim (compared (rank s l.price p)) [
    | same g ↦
        ground (arith, eq_of_rank s l.price p g, eq_of_rank s p p', qty_at-AllBetter s l.price ls b)
    | more g ↦
        ground
          (arith, eq_of_rank s p p', qty_at-AllBetter s p ls (AllBetter-trans s p l.price ls g b))
    | less g ↦ ground (arith, eq_of_rank s p p', qty_at-delete ls h)
  ]

-- Whether a price is found says whether it reads as a quantity.
pub qty_at-found :
    (s : Side) (p : Price) (ls : List Level) (k j : ℕ)
    → locate s p ls k ≡ found j
    → (q : Qty) × (qty_at s p ls ≡ some q)
unfolding locate qty_at
qty_at-found s p [] k j e = absurd (cc)
qty_at-found s p (l ∷ ls) k j e = elim (compared (rank s l.price p)) [
  | same g ↦ (l.qty, rw (g, qty_at))
  | more g ↦ absurd (ground arith)
  | less g ↦ let (q, h) = qty_at-found s p ls (k + 1) j (ground arith) in (q, rw (g, qty_at) h)
]

pub qty_at-missing :
    (s : Side) (p : Price) (ls : List Level) (k j : ℕ)
    → IsSorted s ls
    → locate s p ls k ≡ missing j
    → qty_at s p ls ≡ none
unfolding locate qty_at
qty_at-missing s p [] k j h e = refl
qty_at-missing s p (l ∷ ls) k j (b, h) e = ground (
  arith,
  qty_at-missing s p ls (k + 1) j h,
  λ (g : rank s l.price p ≡ Ordering.gt).
      qty_at-AllBetter s p ls (AllBetter-trans s p l.price ls g b),
)

pub length-put_missing :
    (s : Side) (p : Price) (q : Qty) (ls : List Level) (k j : ℕ)
    → locate s p ls k ≡ missing j
    → length (put s p q ls) ≡ length ls + 1
unfolding locate put
length-put_missing s p q [] k j e = omega arith
length-put_missing s p q (l ∷ ls) k j e = ground (arith, length-put_missing s p q ls (k + 1) j)
