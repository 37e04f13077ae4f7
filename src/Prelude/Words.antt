-- ===== src/Prelude/Words.antt =====
-- Saturating arithmetic on unsigned words of a given modulus.
use Prim.Native.Nat.{ℕ, zero, suc, ◌+◌, ◌-◌, ◌*◌, ◌/◌, ◌%◌, ◌^◌, ◌<◌, ◌≤◌, min}
use native.Mathlib.Nat.{lt-div-mul-add, div-lt_iff_lt-mul, add-mul}
use mathlib.Core.Option.{Option, none, some}
use bowst.Prelude.Tests.{ltb, if◌then◌else◌}
use native.Mathlib.Omega.{arith}

abbrev pub u64_mod : ℕ
u64_mod = 2 ^ 64

abbrev pub u64_max : ℕ
u64_max = 2 ^ 64 - 1

abbrev pub u128_max : ℕ
u128_max = 2 ^ 128 - 1

-- `saturating_add` on `u64` and `usize`.
abbrev pub sat_add : ℕ → ℕ → ℕ
sat_add a b = min (a + b) u64_max

abbrev pub u32_max : ℕ
u32_max = 2 ^ 32 - 1

-- `wrapping_sub` on `u32` and `u64`.
abbrev pub wrapping_sub32 : ℕ → ℕ → ℕ
wrapping_sub32 a b = (a + 2 ^ 32 - b) % 2 ^ 32

abbrev pub wrapping_sub64 : ℕ → ℕ → ℕ
wrapping_sub64 a b = (a + 2 ^ 64 - b) % 2 ^ 64

-- `leading_zeros` of a value of the given width.
unfoldable pub leading_zeros : ℕ → ℕ → ℕ
leading_zeros zero v = 0
leading_zeros (suc w) v = let rest = leading_zeros w v in if ltb v (2 ^ w) then suc rest else 0

-- `checked_shl` on `u64`.
unfoldable pub checked_shl : ℕ → ℕ → Option ℕ
checked_shl a k = if ltb k 64 then some (a * 2 ^ k % 2 ^ 64) else none

-- `saturating_add` and `saturating_mul` on `u128`.
abbrev pub sat_add128 : ℕ → ℕ → ℕ
sat_add128 a b = min (a + b) u128_max

abbrev pub sat_mul128 : ℕ → ℕ → ℕ
sat_mul128 a b = min (a * b) u128_max

-- `Duration::MAX` in nanoseconds.
abbrev pub duration_max : ℕ
duration_max = u64_max * 1000000000 + 999999999

-- `div_ceil`, by a divisor that is not zero.
unfoldable pub div_ceil : ℕ → ℕ → ℕ
div_ceil a b = (a + (b - 1)) / b

pub div_ceil-enough : (a b : ℕ) → 0 < b → a ≤ div_ceil a b * b
unfolding div_ceil
div_ceil-enough a b h = omega (arith, lt-div-mul-add {a = a + (b - 1)} h)

-- Nothing less is enough.
pub div_ceil-least : (a b k : ℕ) → 0 < b → a ≤ k * b → div_ceil a b ≤ k
unfolding div_ceil
div_ceil-least a b k h le =
    let lt = (div-lt_iff_lt-mul {x = a + (b - 1)} {y = k + 1} h).1 (omega (arith, add-mul k 1 b)) in
    omega (arith, lt)
