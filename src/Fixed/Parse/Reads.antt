-- ===== src/Fixed/Parse/Reads.antt =====
-- Every plain decimal number is read, with its value.
use bowst.Prelude.{
  ℕ, zero, suc, ◌+◌, ◌-◌, ◌*◌, ◌<◌, ◌≤◌, ◌≡◌, ◌⊎◌, refl, sym, ap, ◌∙◌, Bool, true, false, inl, inr,
  List, [], ◌∷◌, ◌++◌, length, All, ◌==◌, if◌then◌else◌, ok, ◌>>=◌, arith, min,
}
use bowst.Prelude.Int.{ℤ, pos, neg, i128_half}
use bowst.Fixed.{Decimal}
use bowst.Fixed.Parse.{Scan, scan_byte, scan, start, total, finish, parse_bytes}
use bowst.Fixed.Parse.Value.{IsDigit, horner, horner-append, horner_grows, Held, scan_byte_reads}

fraction_reads :
    (cs : List ℕ) (s : Scan) (at : ℕ)
    → All IsDigit cs
    → Held s
    → s.seen_point ≡ true
    → s.scale + length cs ≤ 18
    → horner (total s) cs < i128_half
    → (s' : Scan) × (scan s at cs ≡ ok s')
      × (total s' ≡ horner (total s) cs)
      × Held s'
      × (s'.seen_point ≡ true)
      × (s'.scale ≡ s.scale + length cs)
      × (s'.int_digits ≡ s.int_digits)
unfolding scan
fraction_reads [] s at all h seen few b = (s, refl, refl, h, seen, omega arith, refl)
fraction_reads (c ∷ cs) s at (d, all) h seen few b =
    let (t, e, p) =
      scan_byte_reads s at c h d (omega (arith, horner_grows (total s * 10 + (c - 48)) cs))
        (inr (omega arith)) in
    let kept : t.int_digits ≡ s.int_digits = ground (arith, p.kept) in
    let places : t.scale ≡ s.scale + 1 = ground (arith, p.places) in
    let (s', e', v, h', seen', sc, int) =
      fraction_reads cs t (at + 1) all p.held (p.point ∙ seen) (omega arith) (rw p.value b) in
    (s', rw (e, ◌>>=◌) e', v ∙ ap (λ t. horner t cs) p.value, h', seen', omega arith, int ∙ kept)

integer_reads :
    (cs rest : List ℕ) (s : Scan) (at : ℕ)
    → All IsDigit cs
    → Held s
    → s.seen_point ≡ false
    → horner (total s) cs < i128_half
    → (s' : Scan) × (scan s at (cs ++ rest) ≡ scan s' (at + length cs) rest)
      × (total s' ≡ horner (total s) cs)
      × Held s'
      × (s'.seen_point ≡ false)
      × (s'.scale ≡ s.scale)
      × (min (s.int_digits + length cs) 1 ≤ s'.int_digits)
unfolding scan
integer_reads [] rest s at all h plain b =
    let e : at + 0 ≡ at = omega arith in (s, rw e refl, refl, h, plain, refl, omega arith)
integer_reads (c ∷ cs) rest s at (d, all) h plain b =
    let (t, e, p) =
      scan_byte_reads s at c h d (omega (arith, horner_grows (total s * 10 + (c - 48)) cs))
        (inl plain) in
    let counted : 0 < t.int_digits = ground (arith, p.counted) in
    let places : t.scale ≡ s.scale = ground (arith, p.places) in
    let (s', e', v, h', plain', sc, int) =
      integer_reads cs rest t (at + 1) all p.held (p.point ∙ plain) (rw p.value b) in
    let next : at + suc (length cs) ≡ at + 1 + length cs = omega arith in
    (
      s',
      rw (e, ◌>>=◌, next) e',
      v ∙ ap (λ t. horner t cs) p.value,
      h',
      plain',
      sc ∙ places,
      omega arith,
    )

-- The point and the digits behind it, if there are any.
abbrev pub pointed : List ℕ → List ℕ
pointed [] = []
pointed (c ∷ cs) = 46 ∷ c ∷ cs

abbrev pub signed : Bool → List ℕ → List ℕ
signed true cs = 45 ∷ cs
signed false cs = cs

abbrev pub opposite : Bool → ℕ → ℤ
opposite negative n = if negative then neg n else pos n

digits_read :
    (int frac : List ℕ) (at : ℕ)
    → All IsDigit int
    → All IsDigit frac
    → 0 < length int
    → length frac ≤ 18
    → horner 0 (int ++ frac) < i128_half
    → (s : Scan) × (scan start at (int ++ pointed frac) ≡ ok s)
      × (total s ≡ horner 0 (int ++ frac))
      × (s.scale ≡ length frac)
      × (0 < s.int_digits)
      × ((s.seen_point ≡ false) ⊎ (0 < s.scale))
unfolding scan scan_byte
digits_read int frac at a b some_int few v = go frac b few (rw (← horner-append 0 int frac) v)
  where
    go :
        (frac : List ℕ)
        → All IsDigit frac
        → length frac ≤ 18
        → horner (horner 0 int) frac < i128_half
        → (s : Scan) × (scan start at (int ++ pointed frac) ≡ ok s)
          × (total s ≡ horner 0 (int ++ frac))
          × (s.scale ≡ length frac)
          × (0 < s.int_digits)
          × ((s.seen_point ≡ false) ⊎ (0 < s.scale))
    go [] b few v =
        let (s, e, val, held, plain, sc, n) =
          integer_reads int [] start at a (omega arith) refl v in
        (s, e, val ∙ sym (horner-append 0 int []), sc, omega arith, inl plain)
    go (c ∷ cs) b few v =
        let (s, e, val, held, plain, sc, n) =
          integer_reads int (46 ∷ c ∷ cs) start at a (omega arith) refl
            (omega (arith, v, horner_grows (horner 0 int) (c ∷ cs))) in
        let t : Scan = record s { seen_point = true } in
        let (s', e', val', held', seen, sc', n') =
          fraction_reads (c ∷ cs) t (at + length int + 1) b held refl (omega arith) (rw val v) in
        let point : scan_byte s (at + length int) 46 ≡ ok t = ground arith in
        (
          s',
          e ∙ rw (point, ◌>>=◌) e',
          val' ∙ ap (λ x. horner x (c ∷ cs)) val ∙ sym (horner-append 0 int (c ∷ cs)),
          omega arith,
          omega arith,
          inr (omega arith),
        )

finish_reads :
    (negative : Bool) (len : ℕ) (s : Scan)
    → 0 < s.int_digits
    → (s.seen_point ≡ false) ⊎ (0 < s.scale)
    → total s < i128_half
    → finish negative len s
      ≡ ok (record { mantissa = opposite negative (total s); scale = s.scale })
unfolding finish
finish_reads negative len s a b v = go negative (total s) refl
  where
    go :
        (negative : Bool) (n : ℕ)
        → n ≡ total s
        → finish negative len s
          ≡ ok (record { mantissa = opposite negative (total s); scale = s.scale })
    go false n e = ground arith
    go true zero e = ground arith
    go true (suc n) e = ground arith

-- A plain decimal number: a sign, digits, and perhaps a point and up to 18 digits more.
abbrev pub IsNumber : List ℕ → Decimal → Type 0
IsNumber bytes d =
    (negative : Bool) × (int frac : List ℕ) × (bytes ≡ signed negative (int ++ pointed frac))
    × All IsDigit int
    × All IsDigit frac
    × (0 < length int)
    × (length frac ≤ 18)
    × (horner 0 (int ++ frac) < i128_half)
    × (d ≡ record { mantissa = opposite negative (horner 0 (int ++ frac)); scale = length frac })

pub parse_bytes_reads : (bytes : List ℕ) (d : Decimal) → IsNumber bytes d → parse_bytes bytes ≡ ok d
unfolding parse_bytes
parse_bytes_reads bytes d (negative, int, frac, e, a, b, n, few, v, same) =
    rw (e, same) (go negative int n a v)
  where
    go :
        (negative : Bool) (int : List ℕ)
        → 0 < length int
        → All IsDigit int
        → horner 0 (int ++ frac) < i128_half
        → parse_bytes (signed negative (int ++ pointed frac))
          ≡ ok (record {
            mantissa = opposite negative (horner 0 (int ++ frac));
            scale = length frac;
          })
    go true int n a v =
        let (s, e, val, sc, int_digits, point) = digits_read int frac 1 a b n few v in
        rw (e, ◌>>=◌)
          (finish_reads true (suc (length (int ++ pointed frac))) s int_digits point (omega arith)
            ∙ rw (val, sc) refl)
    go false [] n a v = absurd (omega arith)
    go false (c ∷ cs) n a v =
        let (s, e, val, sc, int_digits, point) = digits_read (c ∷ cs) frac 0 a b n few v in
        let digit : (c == 45) ≡ false = ground arith in
        rw (digit, e, ◌>>=◌)
          (finish_reads false (length (c ∷ cs ++ pointed frac)) s int_digits point (omega arith)
            ∙ rw (val, sc) refl)
