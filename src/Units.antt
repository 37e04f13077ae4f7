-- ===== src/Units.antt =====
-- `Price`, `Qty` and `Side` of crates/bowst-core/src/units.rs, as the order book uses them.
use bowst.Prelude.{Ordering, Bool, true, false}
use bowst.Prelude.Int.{ℤ, pos, cmp}

-- The newtypes over `i64`.
abbrev pub Price : Type 0
Price = ℤ

abbrev pub Qty : Type 0
Qty = ℤ

pub data Side : Type 0 where
  buy sell : Side

abbrev pub is_zero : ℤ → Bool
is_zero q = elim (cmp q (pos 0)) [ Ordering.eq ↦ true | _ ↦ false ]

abbrev pub is_negative : ℤ → Bool
is_negative q = elim (cmp q (pos 0)) [ Ordering.lt ↦ true | _ ↦ false ]

-- `self.get() <= 0`.
abbrev pub not_positive : ℤ → Bool
not_positive p = elim (cmp p (pos 0)) [ Ordering.gt ↦ false | _ ↦ true ]

abbrev pub is_more_aggressive : Side → Price → Price → Bool
is_more_aggressive buy a b = elim (cmp a b) [ Ordering.gt ↦ true | _ ↦ false ]
is_more_aggressive sell a b = elim (cmp a b) [ Ordering.lt ↦ true | _ ↦ false ]
