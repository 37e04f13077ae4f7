-- ===== src/Fixed/Parse/Accepts.antt =====
-- Only plain decimal numbers are read.
use bowst.Prelude.{
  ℕ, zero, suc, ◌+◌, ◌<◌, ◌≤◌, ◌≡◌, ◌⊎◌, ◌↔◌, refl, sym, ap, ◌∙◌, subst, Bool, true, false, ◌&&◌,
  Bool-cases, inl, inr, List, [], ◌∷◌, ◌++◌, length, All, ◌==◌, Result, ok, err, ◌>>=◌, arith,
}
use bowst.Prelude.Int.{i128_half}
use bowst.Fixed.{FixedError, Decimal}
use bowst.Fixed.Parse.{Scan, scan_byte, scan, start, total, finish, parse_bytes}
use bowst.Fixed.Parse.Value.{IsDigit, horner, Held, scan_byte_accepts}
use bowst.Fixed.Parse.Reads.{pointed, signed, opposite, IsNumber, parse_bytes_reads}

-- What a success of one operation after another says of each.
step_ok :
    (r : Result Scan FixedError) (f : Scan → Result Scan FixedError) (s' : Scan)
    → (r >>= f) ≡ ok s'
    → (t : Scan) × (r ≡ ok t) × (f t ≡ ok s')
step_ok (ok t) f s' e = (t, refl, e)
step_ok (err x) f s' e = absurd (cc)

ok_injective : (s s' : Scan) → ◌≡◌ {A = Result Scan FixedError} (ok s) (ok s') → s ≡ s'
ok_injective s s' e = cc

fraction_accepts :
    (bytes : List ℕ) (s s' : Scan) (at : ℕ)
    → Held s
    → s.seen_point ≡ true
    → s.scale ≤ 18
    → total s < i128_half
    → scan s at bytes ≡ ok s'
    → All IsDigit bytes
      × (total s' ≡ horner (total s) bytes)
      × (total s' < i128_half)
      × (s'.scale ≡ s.scale + length bytes)
      × (s'.scale ≤ 18)
      × (s'.seen_point ≡ true)
      × (s'.int_digits ≡ s.int_digits)
unfolding scan
fraction_accepts [] s s' at h seen few b e =
    subst
      (λ (t : Scan).
        Unit {0}
        × (total t ≡ total s)
        × (total t < i128_half)
        × (t.scale ≡ s.scale + 0)
        × (t.scale ≤ 18)
        × (t.seen_point ≡ true)
        × (t.int_digits ≡ s.int_digits))
      (ok_injective s s' e) (tt, refl, b, omega arith, few, seen, refl)
fraction_accepts (c ∷ cs) s s' at h seen few b e =
    let (t, first, rest) = step_ok (scan_byte s at c) (λ u. scan u (at + 1) cs) s' e in
    elim (scan_byte_accepts s t at c h first) [
      | inr (dot, plain, n, r) ↦ absurd (cc)
      | inl (d, p) ↦
          let few' : t.scale ≤ 18 = ground (arith, p.few) in
          let places : t.scale ≡ s.scale + 1 = ground (arith, p.places) in
          let kept : t.int_digits ≡ s.int_digits = ground (arith, p.kept) in
          let (all, val, b', sc, sc', seen', int) =
            fraction_accepts cs t s' (at + 1) p.held (p.point ∙ seen) few'
              (omega (arith, p.value, p.bounded)) rest in
          ((d, all), val ∙ ap (λ x. horner x cs) p.value, b', omega arith, sc', seen', int ∙ kept)
    ]

-- Digits, and perhaps a point with digits behind it.
abbrev tail : Bool → List ℕ → List ℕ
tail true frac = 46 ∷ frac
tail false frac = []

record Read (bytes : List ℕ) (s s' : Scan) : Type 0 where
  int : List ℕ
  frac : List ℕ
  dot : Bool
  text : bytes ≡ int ++ tail dot frac
  int_all : All IsDigit int
  frac_all : All IsDigit frac
  no_point : (dot ≡ true) ⊎ (frac ≡ [])
  value : total s' ≡ horner (total s) (int ++ frac)
  bounded : total s' < i128_half
  places : s'.scale ≡ length frac
  few : s'.scale ≤ 18
  seen : s'.seen_point ≡ dot
  counted : (0 < length int) ⊎ (s'.int_digits ≡ s.int_digits)

integer_accepts :
    (bytes : List ℕ) (s s' : Scan) (at : ℕ)
    → Held s
    → s.seen_point ≡ false
    → s.scale ≡ 0
    → total s < i128_half
    → scan s at bytes ≡ ok s'
    → Read bytes s s'
unfolding scan
integer_accepts [] s s' at h plain z b e =
    subst (λ t. Read [] s t) (ok_injective s s' e)
      (record {
        int = [];
        frac = [];
        dot = false;
        text = refl;
        int_all = tt;
        frac_all = tt;
        no_point = inr refl;
        value = refl;
        bounded = b;
        places = z;
        few = omega arith;
        seen = plain;
        counted = inr refl;
      })
integer_accepts (c ∷ cs) s s' at h plain z b e =
    let (t, first, rest) = step_ok (scan_byte s at c) (λ u. scan u (at + 1) cs) s' e in
    elim (scan_byte_accepts s t at c h first) [
      | inr (dot, plain', n, r) ↦
          let (all, val, b', sc, sc', seen', int) =
            fraction_accepts cs (record s { seen_point = true }) s' (at + 1) h refl (omega arith) b
              (subst (λ u. scan u (at + 1) cs ≡ ok s') r rest) in
          record {
            int = [];
            frac = cs;
            dot = true;
            text = ap (λ x. x ∷ cs) dot;
            int_all = tt;
            frac_all = all;
            no_point = inl refl;
            value = val;
            bounded = b';
            places = omega arith;
            few = sc';
            seen = seen';
            counted = inr int;
          }
      | inl (d, p) ↦
          let places : t.scale ≡ 0 = ground (arith, p.places) in
          let r =
            integer_accepts cs t s' (at + 1) p.held (p.point ∙ plain) places
              (omega (arith, p.value, p.bounded)) rest in
          record {
            int = c ∷ r.int;
            frac = r.frac;
            dot = r.dot;
            text = ap (λ x. c ∷ x) r.text;
            int_all = (d, r.int_all);
            frac_all = r.frac_all;
            no_point = r.no_point;
            value = r.value ∙ ap (λ x. horner x (r.int ++ r.frac)) p.value;
            bounded = r.bounded;
            places = r.places;
            few = r.few;
            seen = r.seen;
            counted = inl (omega arith);
          }
    ]

finish_accepts :
    (negative : Bool) (len : ℕ) (s : Scan) (d : Decimal)
    → total s < i128_half
    → finish negative len s ≡ ok d
    → (0 < s.int_digits)
      × ((s.seen_point ≡ false) ⊎ (0 < s.scale))
      × (d ≡ record { mantissa = opposite negative (total s); scale = s.scale })
unfolding finish
finish_accepts negative len s d v e = elim (Bool-cases (s.int_digits == 0)) [
  | inl none ↦ absurd (ground arith)
  | inr some ↦ elim (Bool-cases (s.seen_point && s.scale == 0)) [
    | inl bare ↦ absurd (ground arith)
    | inr good ↦ (
      ground arith,
      point (Bool-cases s.seen_point) good,
      value negative (total s) refl e some good,
    )
  ]
]
  where
    point :
        (s.seen_point ≡ true) ⊎ (s.seen_point ≡ false)
        → s.seen_point && s.scale == 0 ≡ false
        → (s.seen_point ≡ false) ⊎ (0 < s.scale)
    point (inr plain) good = inl plain
    point (inl seen) good = inr (ground arith)

    value :
        (negative : Bool) (n : ℕ)
        → n ≡ total s
        → finish negative len s ≡ ok d
        → s.int_digits == 0 ≡ false
        → s.seen_point && s.scale == 0 ≡ false
        → d ≡ record { mantissa = opposite negative (total s); scale = s.scale }
    value false n q e some good = ground arith
    value true zero q e some good = ground arith
    value true (suc n) q e some good = ground arith

rest_accepts :
    (negative : Bool) (bytes : List ℕ) (at len : ℕ) (d : Decimal)
    → (scan start at bytes >>= finish negative len) ≡ ok d
    → IsNumber (signed negative bytes) d
rest_accepts negative bytes at len d e =
    let (s, scanned, finished) = scan_then (scan start at bytes) (finish negative len) e in
    let r = integer_accepts bytes start s at (omega arith) refl refl (omega arith) scanned in
    let (some_int, point, same) = finish_accepts negative len s d r.bounded finished in
    (
      negative,
      r.int,
      r.frac,
      ap (signed negative) (
          r.text
          ∙ ap (λ t. r.int ++ t) (shape r.dot r.frac r.no_point (seen_dot r.seen r.places point))),
      r.int_all,
      r.frac_all,
      ground (arith, r.counted),
      omega (arith, r.places, r.few),
      omega (arith, r.value, r.bounded),
      same ∙ rw (r.value, r.places) refl,
    )
  where
    scan_then :
        (m : Result Scan FixedError) (f : Scan → Result Decimal FixedError)
        → (m >>= f) ≡ ok d
        → (s : Scan) × (m ≡ ok s) × (f s ≡ ok d)
    scan_then (ok s) f e = (s, refl, e)
    scan_then (err x) f e = absurd (cc)

    seen_dot :
        {seen dot : Bool} {scale places : ℕ}
        → seen ≡ dot
        → scale ≡ places
        → (seen ≡ false) ⊎ (0 < scale)
        → (dot ≡ false) ⊎ (0 < places)
    seen_dot a b (inl p) = inl (sym a ∙ p)
    seen_dot a b (inr p) = inr (omega arith)

    shape :
        (dot : Bool) (frac : List ℕ)
        → (dot ≡ true) ⊎ (frac ≡ [])
        → (dot ≡ false) ⊎ (0 < length frac)
        → tail dot frac ≡ pointed frac
    shape true [] a (inl b) = absurd (cc)
    shape true [] a (inr b) = absurd (omega arith)
    shape true (c ∷ cs) a b = refl
    shape false [] a b = refl
    shape false (c ∷ cs) (inl a) b = absurd (cc)
    shape false (c ∷ cs) (inr a) b = absurd (cc)

parse_bytes_accepts : (bytes : List ℕ) (d : Decimal) → parse_bytes bytes ≡ ok d → IsNumber bytes d
unfolding parse_bytes
parse_bytes_accepts [] d e = absurd (cc)
parse_bytes_accepts (c ∷ cs) d e = elim (Bool-cases (c == 45)) [
  | inl sign ↦
      let minus : c ≡ 45 = ground arith in
      rw minus (rest_accepts true cs 1 (length (c ∷ cs)) d (rw sign at e))
  | inr plain ↦ rest_accepts false (c ∷ cs) 0 (length (c ∷ cs)) d (rw plain at e)
]

-- A text is read if and only if it is a plain decimal number, with at most 18 decimal places and with
-- digits that spell less than 2^127, and the result is its exact value.
pub parse_bytes_lem : (bytes : List ℕ) (d : Decimal) → (parse_bytes bytes ≡ ok d) ↔ IsNumber bytes d
parse_bytes_lem bytes d = (parse_bytes_accepts bytes d, parse_bytes_reads bytes d)
