-- ===== src/Prelude/Bytes.antt =====
-- Slices of bytes and little-endian and big-endian integers.
use Prim.Native.Nat.{ℕ, zero, suc, ◌+◌, ◌-◌, ◌*◌, ◌/◌, ◌%◌, ◌^◌, ◌<◌}
use mathlib.Core.Path.{◌≡◌, refl, ap}
use mathlib.Core.List.{List, [], ◌∷◌, ◌++◌, reverse}
use mathlib.Core.Option.{Option, none, some}
use mathlib.Core.Bool.{◌&&◌}
use bowst.Prelude.Tests.{leb, if◌then◌else◌}
use bowst.Prelude.Lists.{length, take, drop}
use native.Mathlib.Nat.{pow-succ'}
use native.Mathlib.Omega.{arith}

-- `bytes.get(from..to)`.
unfoldable pub slice? {ℓ} : {A : Type ℓ} → List A → ℕ → ℕ → Option (List A)
slice? bytes start end =
    if leb start end && leb end (length bytes)
    then some (take (end - start) (drop start bytes))
    else none

-- `to_le_bytes` at a number of bytes.
abbrev pub le_bytes : ℕ → ℕ → List ℕ
le_bytes zero n = []
le_bytes (suc w) n = n % 256 ∷ le_bytes w (n / 256)

-- `from_le_bytes`.
abbrev pub of_le : List ℕ → ℕ
of_le [] = 0
of_le (b ∷ bs) = b + 256 * of_le bs

-- `to_be_bytes` and `from_be_bytes`.
abbrev pub be_bytes : ℕ → ℕ → List ℕ
be_bytes w n = reverse (le_bytes w n)

abbrev pub of_be : List ℕ → ℕ
of_be bs = of_le (reverse bs)

pub of_le-le_bytes : (w n : ℕ) → n < 256 ^ w → of_le (le_bytes w n) ≡ n
of_le-le_bytes zero n h = omega arith
of_le-le_bytes (suc w) n h =
    omega (arith, of_le-le_bytes w (n / 256) (omega (arith, pow-succ' 256 w)))

pub length-le_bytes : (w n : ℕ) → length (le_bytes w n) ≡ w
length-le_bytes zero n = refl
length-le_bytes (suc w) n = ap suc (length-le_bytes w (n / 256))

-- `dst.copy_from_slice(src)` at `out[at..at + src.len()]`, when that is in range; else nothing.
unfoldable pub overwrite {ℓ} : {A : Type ℓ} → List A → ℕ → List A → List A
overwrite out at src =
    if leb (at + length src) (length out)
    then take at out ++ (src ++ drop (at + length src) out)
    else out
