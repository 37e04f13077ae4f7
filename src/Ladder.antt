-- ===== src/Ladder.antt =====
-- One side of a level-2 book, crates/bowst-book/src/ladder.rs: levels sorted with the best last.
pub mod Order
pub mod Search
pub mod Spec
pub mod Apply
pub mod Valid
pub mod Exact
pub mod Load
pub mod LoadLoop
mod Tests
use bowst.Prelude.{
  ℕ, zero, suc, ◌+◌, ◌-◌, ◌/◌, ◌≡◌, min, Ordering, Bool, true, false, Option, none, some, List, [],
  ◌∷◌, ◌++◌, reverse, length, get_elem?, take, last?, first?, insert_at, remove_at, ltb, leb, ◌==◌,
  if◌then◌else◌, Result, ok, err,
}
use bowst.Prelude.Int.{cmp}
use bowst.Units.{
  Price, Qty, Side, buy, sell, is_zero, is_negative, not_positive, is_more_aggressive,
}

pub data BookError : Type 0 where
  zero_capacity : BookError
  invalid_price : Side → Price → BookError
  invalid_qty : Side → Price → Qty → BookError
  duplicate_level : Side → Price → BookError

pub record Level : Type 0 where
  pub price : Price
  pub qty : Qty

pub data Applied : Type 0 where
  inserted updated removed unchanged beyond : Applied

pub record Ladder : Type 0 where
  pub side : Side
  pub levels : List Level
  pub capacity : ℕ
  pub horizon : Option Price

-- `Levels at the top of the book checked linearly before binary search.`
abbrev pub top_scan : ℕ
top_scan = 16

unfoldable pub new : Side → ℕ → Result Ladder BookError
new side capacity =
    if capacity == 0
    then err zero_capacity
    else ok (record { side = side; levels = []; capacity = capacity; horizon = none })

abbrev pub best : Ladder → Option Level
best l = last? l.levels

-- `checked_sub(n)?.checked_sub(1)?`, so an `n` at or past the length has no level.
unfoldable pub nth_best : Ladder → ℕ → Option Level
nth_best l n =
    if ltb n (length l.levels) then get_elem? l.levels (length l.levels - n - 1) else none

-- `Less` means that the first price is worse.
unfoldable pub rank : Side → Price → Price → Ordering
rank buy a b = cmp a b
rank sell a b = cmp b a

-- `Ok(index)` of a search, and `Err(index)`.
pub data Found : Type 0 where
  found : ℕ → Found
  missing : ℕ → Found

-- The linear scan over the reversed levels; `len` is the number of all levels.
unfoldable pub scan : Side → Price → ℕ → ℕ → List Level → Option Found
scan side price len offset [] = none
scan side price len offset (l ∷ ls) =
    let rest = scan side price len (offset + 1) ls in
    elim (rank side l.price price) [
      | Ordering.eq ↦ some (found (len - offset - 1))
      | Ordering.lt ↦ some (missing (len - offset - 1 + 1))
      | Ordering.gt ↦ rest
    ]

-- The comparison of `binary_search_by` at an index, which is always in range.
unfoldable pub rank_at : Side → Price → List Level → ℕ → Ordering
rank_at side price ls i = elim (get_elem? ls i) [
  | some l ↦ rank side l.price price
  | none ↦ Ordering.gt
]

-- The halving loop of the standard library's `binary_search_by`: `size` positions from `base` on.
unfoldable pub bisect : ℕ → Side → Price → List Level → ℕ → ℕ → ℕ
bisect zero side price ls base size = base
bisect (suc fuel) side price ls base size =
    let half = size / 2 in
    let rest =
      bisect fuel side price ls
        (elim (rank_at side price ls (base + half)) [ Ordering.gt ↦ base | _ ↦ base + half ])
        (size - half) in
    if ltb 1 size then rest else base

unfoldable pub binary_search : Side → Price → List Level → Found
binary_search side price [] = missing 0
binary_search side price (l ∷ ls) =
    let base = bisect (length (l ∷ ls)) side price (l ∷ ls) 0 (length (l ∷ ls)) in
    elim (rank_at side price (l ∷ ls) base) [
      | Ordering.eq ↦ found base
      | Ordering.lt ↦ missing (base + 1)
      | Ordering.gt ↦ missing base
    ]

unfoldable pub search : Ladder → Price → Found
search l price =
    let len = length l.levels in
    let scanned = min len top_scan in
    elim (scan l.side price len 0 (take scanned (reverse l.levels))) [
      | some r ↦ r
      | none ↦ binary_search l.side price (take (len - scanned) l.levels)
    ]

unfoldable pub beyond_horizon : Ladder → Price → Bool
beyond_horizon l price = elim l.horizon [
  | some horizon ↦ is_more_aggressive l.side horizon price
  | none ↦ false
]

unfoldable pub validate : Side → Price → Qty → Result (Unit {0}) BookError
validate side price qty =
    if not_positive price
    then err (invalid_price side price)
    else if is_negative qty
    then err (invalid_qty side price qty)
    else ok tt

-- The price of the worst level held: what `horizon` becomes.
abbrev pub worst_price : List Level → Option Price
worst_price [] = none
worst_price (l ∷ ls) = some l.price

unfoldable pub insert : Ladder → ℕ → Level → Ladder × Applied
insert l index level =
    if ltb (length l.levels) l.capacity
    then (record l { levels = insert_at l.levels index level }, inserted)
    else if index == 0
    then (record l { horizon = worst_price l.levels }, beyond)
    else (
      record l {
        levels = insert_at (remove_at l.levels 0) (index - 1) level;
        horizon = worst_price (insert_at (remove_at l.levels 0) (index - 1) level);
      },
      inserted,
    )

-- `if let Some(level) = self.levels.get_mut(index) { level.qty = qty }`.
abbrev pub set_qty : List Level → ℕ → Qty → List Level
set_qty [] i q = []
set_qty (l ∷ ls) zero q = record l { qty = q } ∷ ls
set_qty (l ∷ ls) (suc i) q = l ∷ set_qty ls i q

-- The `match` of `apply`, on what the search returned.
unfoldable pub apply_found : Ladder → Price → Qty → Found → Ladder × Applied
apply_found l price qty (found i) =
    if is_zero qty
    then (record l { levels = remove_at l.levels i }, removed)
    else (record l { levels = set_qty l.levels i qty }, updated)
apply_found l price qty (missing i) =
    if is_zero qty then (l, unchanged) else insert l i (record { price = price; qty = qty })

unfoldable pub apply : Ladder → Price → Qty → Ladder × Result Applied BookError
apply l price qty = elim (validate l.side price qty) [
  | err e ↦ (l, err e)
  | ok _ ↦
      if beyond_horizon l price
      then (l, ok beyond)
      else (let (l', r) = apply_found l price qty (search l price) in (l', ok r))
]

abbrev pub clear : Ladder → Ladder
clear l = record l { levels = []; horizon = none }

-- `sort_unstable_by` with the side's order, worst first. Levels of one price may come out in any
-- order; `sort_and_check` fails with that price whichever it is.
unfoldable pub insert_sorted : Side → Level → List Level → List Level
insert_sorted side x [] = x ∷ []
insert_sorted side x (y ∷ ys) = elim (rank side x.price y.price) [
  | Ordering.gt ↦ y ∷ insert_sorted side x ys
  | _ ↦ x ∷ y ∷ ys
]

unfoldable pub sort : Side → List Level → List Level
sort side [] = []
sort side (x ∷ xs) = insert_sorted side x (sort side xs)

-- The first adjacent pair of equal prices.
unfoldable pub duplicate : List Level → Option Price
duplicate [] = none
duplicate (a ∷ []) = none
duplicate (a ∷ b ∷ ls) = elim (cmp a.price b.price) [
  | Ordering.eq ↦ some a.price
  | _ ↦ duplicate (b ∷ ls)
]

unfoldable pub sort_and_check : Ladder → Ladder × Result (Unit {0}) BookError
sort_and_check l =
    let levels = sort l.side l.levels in
    (
      record l { levels = levels },
      elim (duplicate levels) [ some p ↦ err (duplicate_level l.side p) | none ↦ ok tt ],
    )

-- One level of a snapshot that does not fit: the ladder is sorted.
unfoldable pub load_full : Ladder → Level → Ladder × Result (Unit {0}) BookError
load_full l level = elim (search l level.price) [
  | found _ ↦ (l, err (duplicate_level l.side level.price))
  | missing index ↦ ((insert l index level).0, ok tt)
]

-- The loop of `load_inner`, with its flag `sorted`, and the check after it.
unfoldable pub load_inner : Ladder → Bool → List Level → Ladder × Result (Unit {0}) BookError
load_inner l true [] = (l, ok tt)
load_inner l false [] = sort_and_check l
load_inner l sorted (level ∷ rest) = elim (validate l.side level.price level.qty) [
  | err e ↦ (l, err e)
  | ok _ ↦ elim (is_zero level.qty) [
    | true ↦ (l, err (invalid_qty l.side level.price level.qty))
    | false ↦ elim (ltb (length l.levels) l.capacity) [
      | true ↦ load_inner (record l { levels = l.levels ++ (level ∷ []) }) sorted rest
      | false ↦
          let (l', r) = elim sorted as (λ _. Ladder × Result (Unit {0}) BookError) [
            | true ↦ (l, ok tt)
            | false ↦ sort_and_check l
          ] in
          elim r [
            | err e ↦ (l', err e)
            | ok _ ↦
                let (l'', r') = load_full l' level in
                elim r' [ err e ↦ (l'', err e) | ok _ ↦ load_inner l'' true rest ]
          ]
    ]
  ]
]

unfoldable pub load : Ladder → List Level → Ladder × Result (Unit {0}) BookError
load l levels =
    let (l', r) = load_inner (clear l) false levels in
    elim r [ err e ↦ (clear l', err e) | ok _ ↦ (l', ok tt) ]
