-- ===== src/Money.antt =====
-- Prices and quantities against decimal numbers, the rest of crates/bowst-core/src/units.rs.
pub mod Quote
mod Tests
use bowst.Prelude.{◌-◌, Option, Result}
use bowst.Prelude.Int.{ℤ, pos, negsuc, i64_half, checked, negated}
use bowst.Prelude.Euclid.{◌+ℤ◌}
use bowst.Units.{Price, Qty, Side, buy, sell}
use bowst.Fixed.{FixedError, Rounding, down, up, Decimal, multiply}
use bowst.Fixed.Increment.{Increment, to_units, from_units}

-- Of a price or of a quantity.
unfoldable pub from_dec : Decimal → Increment → Rounding → Result ℤ FixedError
from_dec value increment rounding = to_units increment value rounding

unfoldable pub to_dec : ℤ → Increment → Decimal
to_dec units increment = from_units increment units

unfoldable pub checked_add : ℤ → ℤ → Option ℤ
checked_add units rhs = checked i64_half (units +ℤ rhs)

unfoldable pub checked_sub : ℤ → ℤ → Option ℤ
checked_sub units rhs = checked i64_half (units +ℤ negated rhs)

unfoldable pub opposite : Side → Side
opposite buy = sell
opposite sell = buy

-- The number by which a filled order changes the base asset, 1 or -1.
unfoldable pub sign : Side → ℤ
sign buy = pos 1
sign sell = negsuc 0

unfoldable pub passive_rounding : Side → Rounding
passive_rounding buy = down
passive_rounding sell = up

unfoldable pub notional : Price → Increment → Qty → Increment → Result Decimal FixedError
notional price tick qty lot = multiply (to_dec price tick) (to_dec qty lot)
