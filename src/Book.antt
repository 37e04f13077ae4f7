-- ===== src/Book.antt =====
-- The two-sided book, crates/bowst-book/src/book.rs.
pub mod Valid
use bowst.Prelude.{
  ℕ, Ordering, Bool, true, false, Option, none, some, List, if◌then◌else◌, Result, ok, err, is_err,
}
use bowst.Prelude.Int.{cmp}
use bowst.Units.{Price, Qty, Side, buy, sell}
use bowst.Ladder
use bowst.Ladder.{Ladder, Level, Applied, BookError}

pub record LevelUpdate : Type 0 where
  pub side : Side
  pub price : Price
  pub qty : Qty

pub record Book : Type 0 where
  pub bids : Ladder
  pub asks : Ladder

unfoldable pub new : ℕ → Result Book BookError
new levels_per_side = elim (Ladder.new buy levels_per_side) [
  | err e ↦ err e
  | ok bids ↦ elim (Ladder.new sell levels_per_side) [
    | err e ↦ err e
    | ok asks ↦ ok (record { bids = bids; asks = asks })
  ]
]

-- `side`, and `side_mut` as a write.
abbrev pub side_of : Book → Side → Ladder
side_of b buy = b.bids
side_of b sell = b.asks

abbrev pub with_side : Book → Side → Ladder → Book
with_side b buy l = record b { bids = l }
with_side b sell l = record b { asks = l }

abbrev pub best_bid : Book → Option Level
best_bid b = Ladder.best b.bids

abbrev pub best_ask : Book → Option Level
best_ask b = Ladder.best b.asks

-- `bid.price >= ask.price`.
abbrev pub meets : Price → Price → Bool
meets bid ask = elim (cmp bid ask) [ Ordering.lt ↦ false | _ ↦ true ]

unfoldable pub is_crossed : Book → Bool
is_crossed b = elim (best_bid b) [
  | none ↦ false
  | some bid ↦ elim (best_ask b) [ none ↦ false | some ask ↦ meets bid.price ask.price ]
]

unfoldable pub apply : Book → LevelUpdate → Book × Result Applied BookError
apply b u = let (l, r) = Ladder.apply (side_of b u.side) u.price u.qty in (with_side b u.side l, r)

abbrev pub clear : Book → Book
clear b = record { bids = Ladder.clear b.bids; asks = Ladder.clear b.asks }

-- The asks are loaded only if the bids were; an error empties both sides.
unfoldable pub load : Book → List Level → List Level → Book × Result (Unit {0}) BookError
load b bids asks =
    let (l, r) = Ladder.load b.bids bids in
    elim r [
      | err e ↦ (clear (record b { bids = l }), err e)
      | ok _ ↦
          let (l', r') = Ladder.load b.asks asks in
          elim r' [
            | err e ↦ (clear (record { bids = l; asks = l' }), err e)
            | ok _ ↦ (record { bids = l; asks = l' }, ok tt)
          ]
    ]
