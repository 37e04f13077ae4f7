-- ===== src/Ladder/Apply.antt =====
-- `Ladder::apply` with its indices, against the walks of `Spec`, and the ladder's invariant.
use bowst.Prelude.{
  ℕ, zero, suc, ◌-◌, ◌<◌, ◌≤◌, ◌≡◌, ◌≢◌, refl, sym, ap, Ordering, false, Bool-cases, inl, inr,
  Option, none, some, List, [], ◌∷◌, length, drop, insert_at, remove_at, All, arith, leb, ◌==◌,
  if◌then◌else◌, ok, err, length-insert_at, length-drop, drop-insert_at,
}
use bowst.Units.{Price, Qty, Side, is_zero, not_positive}
use bowst.Ladder.{
  Level, Ladder, rank, Found, found, missing, set_qty, worst_price, search, beyond_horizon,
  validate, insert, apply_found, apply,
}
use bowst.Ladder.Order.{IsSorted, locate}
use bowst.Ladder.Search.{search-locate}
use bowst.Ladder.Spec.{put, delete, locate_found, locate_missing}

-- Drops the worst level when there is one too many, and records the new worst price.
unfoldable pub trim : Ladder → Ladder
trim l =
    if leb (length l.levels) l.capacity
    then l
    else record l { levels = drop 1 l.levels; horizon = worst_price (drop 1 l.levels) }

abbrev pub stored : Ladder → Price → Qty → Ladder
stored l p q = trim (record l { levels = put l.side p q l.levels })

-- The ladder after an update that is neither invalid nor beyond the horizon.
unfoldable pub updated_to : Ladder → Price → Qty → Ladder
updated_to l p q =
    if is_zero q then record l { levels = delete l.side p l.levels } else stored l p q

-- What a valid ladder may hold of a level.
abbrev pub IsPositive : Level → Type 0
IsPositive x = (not_positive x.price ≡ false) × (not_positive x.qty ≡ false)

-- The price is at the horizon or better.
abbrev pub Known : Side → Option Price → Price → Type 0
Known s none p = Unit
Known s (some h) p = rank s p h ≢ Ordering.lt

pub record IsValid (l : Ladder) : Type 0 where
  pub sorted : IsSorted l.side l.levels
  pub positive : All IsPositive l.levels
  pub room : 0 < l.capacity
  pub bounded : length l.levels ≤ l.capacity
  pub within : All (λ x. Known l.side l.horizon x.price) l.levels

-- The length bound cuts one level, and the side and the capacity stay.
pub trim_shape :
    (l : Ladder)
    → ((trim l).side ≡ l.side)
      × ((trim l).capacity ≡ l.capacity)
      × (l.capacity < length l.levels → length (trim l).levels ≡ length l.levels - 1)
unfolding trim
trim_shape l = ground (arith, length-drop 1 l.levels)

-- Inserting at the position of a missing price is storing and trimming.
pub insert-stored :
    (l : Ladder) (p : Price) (q : Qty) (j : ℕ)
    → IsValid l
    → locate l.side p l.levels 0 ≡ missing j
    → (insert l j (record { price = p; qty = q })).0 ≡ stored l p q
unfolding insert trim
insert-stored l p q j v e =
    let (_, hi, _, at) = locate_missing l.side p l.levels 0 j e in
    let new : Level = record { price = p; qty = q } in
    let j' : j - 0 ≡ j = omega arith in
    let eq : insert_at l.levels j new ≡ put l.side p q l.levels = rw j' at (at q) in
    let n : j ≤ length l.levels = omega arith in
    elim (Bool-cases (j == 0)) [
      | inl z ↦
          let j0 : j ≡ 0 = ground arith in
          let eq0 : new ∷ l.levels ≡ put l.side p q l.levels = rw j0 at eq in
          rw (j0, ← eq0) (ground arith)
      | inr nz ↦
          rw (← eq)
            (ground (arith, length-insert_at l.levels j new n, drop-insert_at l.levels j new))
    ]

length-set_qty : (ls : List Level) (i : ℕ) (q : Qty) → length (set_qty ls i q) ≡ length ls
length-set_qty [] i q = refl
length-set_qty (x ∷ xs) zero q = refl
length-set_qty (x ∷ xs) (suc i) q = ap suc (length-set_qty xs i q)

apply_found-updated_to :
    (l : Ladder) (p : Price) (q : Qty) (f : Found)
    → IsValid l
    → locate l.side p l.levels 0 ≡ f
    → (apply_found l p q f).0 ≡ updated_to l p q
unfolding apply_found updated_to
apply_found-updated_to l p q (found j) v e =
    let (_, _, gone, set) = locate_found l.side p l.levels 0 j e in
    let j' : j - 0 ≡ j = omega arith in
    let gone' : remove_at l.levels j ≡ delete l.side p l.levels = rw j' at gone in
    let set' : set_qty l.levels j q ≡ put l.side p q l.levels = rw j' at (set q) in
    elim (Bool-cases (is_zero q)) [
      | inl z ↦ rw (z, gone')
      | inr nz ↦
          rw (nz, set') (unfold trim in ground (arith, ap length set', length-set_qty l.levels j q))
    ]
apply_found-updated_to l p q (missing j) v e = elim (Bool-cases (is_zero q)) [
  | inl z ↦ rw (z, (locate_missing l.side p l.levels 0 j e).2)
  | inr nz ↦ rw nz (insert-stored l p q j v e)
]

-- On a valid ladder `apply` refuses a bad price or quantity and ignores a price beyond the horizon,
-- leaving the ladder as it was; otherwise it deletes the price, or stores it and drops the worst
-- level if there is one too many.
pub apply-updated_to :
    (l : Ladder) (p : Price) (q : Qty)
    → IsValid l
    → (apply l p q).0 ≡ (elim (validate l.side p q) [
      | err _ ↦ l
      | ok _ ↦ if beyond_horizon l p then l else updated_to l p q
    ])
unfolding apply
apply-updated_to l p q v =
    ground (arith, apply_found-updated_to l p q (search l p) v (sym (search-locate l p v.sorted)))
