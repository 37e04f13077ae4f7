-- ===== src/Ladder/Tests.antt =====
-- The ladder on small inputs.
use bowst.Prelude.{◌≡◌, refl, arith, none, List, [], ◌∷◌, ok}
use bowst.Prelude.Int.{pos}
use bowst.Units.{Price, buy}
use bowst.Ladder.{
  binary_search, Ladder, Level, inserted, rank, search, apply, apply_found, insert, validate,
  beyond_horizon, scan, load, load_inner, load_full, sort, insert_sorted, duplicate, sort_and_check,
}
use bowst.Ladder.Order.{IsSorted, locate}
use bowst.Ladder.Spec.{qty_at}
use bowst.Ladder.Search.{search-locate}
use bowst.Ladder.Apply.{IsValid, Known}
use bowst.Ladder.Valid.{apply-IsValid}
use bowst.Ladder.Exact.{Quotes, quote, apply_reads}
use bowst.Ladder.LoadLoop.{load_reads}

abbrev low : Level
low = record { price = pos 100; qty = pos 5 }

abbrev mid : Level
mid = record { price = pos 101; qty = pos 3 }

abbrev high : Level
high = record { price = pos 102; qty = pos 1 }

abbrev two_bids : Ladder
two_bids = record { side = buy; levels = low ∷ mid ∷ []; capacity = 2; horizon = none }

two_bids-IsSorted : IsSorted buy two_bids.levels
unfolding rank
two_bids-IsSorted = ((refl, tt), (tt, tt))

two_bids-IsValid : IsValid two_bids
two_bids-IsValid = record {
  sorted = two_bids-IsSorted;
  positive = ((refl, refl), ((refl, refl), tt));
  room = omega arith;
  bounded = omega arith;
  within = (tt, (tt, tt));
}

abbrev two_quotes : Quotes
two_quotes p = qty_at buy p two_bids.levels

-- A third bid, better than both, drops the worst one.
apply_two : (apply two_bids (pos 102) (pos 1)).0.levels ≡ mid ∷ high ∷ []
unfolding apply validate beyond_horizon search scan rank apply_found insert
apply_two = refl

apply_two_ok : (apply two_bids (pos 102) (pos 1)).1 ≡ ok inserted
unfolding apply validate beyond_horizon search scan rank apply_found insert
apply_two_ok = refl

apply_two-Known :
    Known
      (apply two_bids (pos 102) (pos 1)).0.side
      (apply two_bids (pos 102) (pos 1)).0.horizon
      (pos 101)
unfolding apply validate beyond_horizon search scan rank apply_found insert
apply_two-Known e = absurd (cc)

apply_reads_example :
    qty_at
      (apply two_bids (pos 102) (pos 1)).0.side
      (pos 101)
      (apply two_bids (pos 102) (pos 1)).0.levels
    ≡ quote buy two_quotes (pos 102) (pos 1) (pos 101)
apply_reads_example =
    apply_reads two_bids two_quotes (pos 102) (pos 1) inserted (pos 101) two_bids-IsValid
      (λ p k. refl) apply_two_ok apply_two-Known

apply-IsValid_example : IsValid (apply two_bids (pos 102) (pos 1)).0
apply-IsValid_example = apply-IsValid two_bids (pos 102) (pos 1) two_bids-IsValid

search-locate_example : search two_bids (pos 100) ≡ locate buy (pos 100) two_bids.levels 0
search-locate_example = search-locate two_bids (pos 100) two_bids-IsSorted

-- A snapshot of three bids, out of order, into room for two.
abbrev three_bids : List Level
three_bids = high ∷ low ∷ mid ∷ []

load_three : (load two_bids three_bids).0.levels ≡ mid ∷ high ∷ []
unfolding load load_inner validate sort_and_check sort insert_sorted rank duplicate load_full search
    scan insert
load_three = refl

load_three_ok : (load two_bids three_bids).1 ≡ ok tt
unfolding load load_inner validate sort_and_check sort insert_sorted rank duplicate load_full search
    scan insert
load_three_ok = refl

load_three-Known :
    Known (load two_bids three_bids).0.side (load two_bids three_bids).0.horizon (pos 102)
unfolding load load_inner validate sort_and_check sort insert_sorted rank duplicate load_full search
    scan insert
load_three-Known e = absurd (cc)

load_reads_example :
    qty_at (load two_bids three_bids).0.side (pos 102) (load two_bids three_bids).0.levels
    ≡ qty_at buy (pos 102) three_bids
load_reads_example =
    load_reads two_bids three_bids (pos 102) (omega arith) load_three_ok load_three-Known

-- A price listed twice below all the levels of a full ladder is dropped twice, and not refused.
abbrev one_lot : Price → Level
one_lot p = record { price = p; qty = pos 1 }

abbrev twice_dropped : List Level
twice_dropped = one_lot (pos 103) ∷ one_lot (pos 102) ∷ one_lot (pos 100) ∷ one_lot (pos 100) ∷ []

load-twice_dropped : (load two_bids twice_dropped).1 ≡ ok tt
unfolding load load_inner validate sort_and_check sort insert_sorted rank duplicate load_full search
    scan insert binary_search
load-twice_dropped = refl
