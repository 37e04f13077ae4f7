-- ===== src/Fixed/Write.antt =====
-- `Dec::write_to` and its `Writer`.
pub mod Digits
pub mod Emit
pub mod RoundTrip
use bowst.Prelude.{
  ℕ, zero, suc, ◌+◌, ◌-◌, ◌/◌, ◌%◌, min, Bool, ◌&&◌, ◌||◌, Ordering, List, [], ◌∷◌, length, set,
  ltb, ◌==◌, if◌then◌else◌, sat_add, Result, ok, err, ◌>>=◌,
}
use bowst.Prelude.Int.{ℤ, pos, negsuc, cmp}
use bowst.Fixed.{max_text_len, FixedError, overflow, buffer_too_small, Decimal, is_negative}

-- `unsigned_abs`.
abbrev pub magnitude : ℤ → ℕ
magnitude (pos n) = n
magnitude (negsuc n) = suc n

-- The loop over the digits, with `room` bytes of `rev` left. It fills `rev` from the lowest digit, and
-- `rev` is read backwards: the digits so far are listed from the highest.
unfoldable pub digits : ℕ → ℕ → ℕ → ℕ → List ℕ → Result (List ℕ) FixedError
digits zero rest len min_digits rev =
    if ltb 0 rest || ltb len min_digits then err overflow else ok rev
digits (suc room) rest len min_digits rev =
    let next = digits room (rest / 10) (sat_add len 1) min_digits ((48 + rest % 10) ∷ rev) in
    if ltb 0 rest || ltb len min_digits then next else ok rev

pub record Writer : Type 0 where
  pub buf : List ℕ
  pub pos : ℕ

unfoldable pub push : Writer → ℕ → Result Writer FixedError
push w byte =
    if ltb w.pos (length w.buf)
    then ok (record { buf = set w.buf w.pos byte; pos = sat_add w.pos 1 })
    else err buffer_too_small

-- The loop over the digits from the highest, of which the first has the index `i`.
unfoldable pub emit : ℕ → ℕ → ℕ → List ℕ → Writer → Result Writer FixedError
emit scale point_at i [] w = ok w
emit scale point_at i (digit ∷ rest) w = do
  w' ← (if i == point_at && ltb 0 scale then push w 46 else ok w)
  w'' ← push w' digit
  emit scale point_at (i + 1) rest w''

-- What the buffer and the count are after a success.
unfoldable pub write_to : Decimal → List ℕ → Result Writer FixedError
write_to d buf = do
  rev ← digits max_text_len (magnitude d.mantissa) 0 (d.scale + 1) []
  signed ←
      (if is_negative d
        then push (record { buf = buf; pos = 0 }) 45
        else ok (record { buf = buf; pos = 0 }))
  emit d.scale (length rev - d.scale) 0 rev signed
