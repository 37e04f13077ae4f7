-- ===== src/Fixed/Parse/Value.antt =====
-- The value that digits spell, and one digit's effect on it.
use bowst.Prelude.{
  ◌⊎◌, ℕ, ◌+◌, ◌-◌, ◌*◌, ◌<◌, ◌≤◌, ◌≡◌, refl, Bool, true, false, ◌==◌, subst, Bool-cases, inl, inr,
  Option, some, none, List, [], ◌∷◌, ◌++◌, ltb, leb, if◌then◌else◌, u64_max, sat_add, ok, err,
  arith,
}
use bowst.Prelude.Int.{i128_half}
use bowst.Fixed.{overflow, accumulate}
use bowst.Fixed.Parse.{Scan, is_digit, push_digit, count_digit, scan_byte, total}

abbrev pub IsDigit : ℕ → Type 0
IsDigit byte = is_digit byte ≡ true

-- The number that digits spell after a number `v`.
abbrev pub horner : ℕ → List ℕ → ℕ
horner v [] = v
horner v (c ∷ cs) = horner (v * 10 + (c - 48)) cs

pub horner-append : (v : ℕ) (xs ys : List ℕ) → horner v (xs ++ ys) ≡ horner (horner v xs) ys
horner-append v [] ys = refl
horner-append v (x ∷ xs) ys = horner-append (v * 10 + (x - 48)) xs ys

pub horner_grows : (v : ℕ) (xs : List ℕ) → v ≤ horner v xs
horner_grows v [] = omega arith
horner_grows v (x ∷ xs) = omega (arith, horner_grows (v * 10 + (x - 48)) xs)

-- The variables of the loop are within their types.
abbrev pub Held : Scan → Type 0
Held s = elim s.big [ none ↦ s.small ≤ u64_max | some value ↦ value < i128_half ]

-- The new value is stored where it fits, and never moves back.
abbrev pub stored : Scan → ℕ → Scan
stored s v = elim s.big [
  | none ↦ if leb v u64_max then record s { small = v } else record s { big = some v }
  | some value ↦ record s { big = some v }
]

push_digit_lem :
    (s : Scan) (digit : ℕ)
    → Held s
    → push_digit s digit ≡ (
        if ltb (total s * 10 + digit) i128_half
        then ok (stored s (total s * 10 + digit))
        else err overflow)
unfolding push_digit accumulate
push_digit_lem s digit h = go s.big s.small s.scale s.seen_point s.int_digits digit h
  where
    go :
        (big : Option ℕ) (small scale : ℕ) (seen : Bool) (int : ℕ) (digit : ℕ)
        → (let s : Scan = record {
          small = small;
          big = big;
          scale = scale;
          seen_point = seen;
          int_digits = int;
        } in
            Held s
            → push_digit s digit ≡ (
                if ltb (total s * 10 + digit) i128_half
                then ok (stored s (total s * 10 + digit))
                else err overflow))
    go none small scale seen int digit h = ground arith
    go (some v) small scale seen int digit h = ground arith

pub stored_lem :
    (s : Scan) (v : ℕ)
    → v < i128_half
    → (total (stored s v) ≡ v)
      × Held (stored s v)
      × ((stored s v).scale ≡ s.scale)
      × ((stored s v).seen_point ≡ s.seen_point)
      × ((stored s v).int_digits ≡ s.int_digits)
stored_lem s v h = go s.big s.small s.scale s.seen_point s.int_digits v h
  where
    go :
        (big : Option ℕ) (small scale : ℕ) (seen : Bool) (int v : ℕ)
        → v < i128_half
        → (let s : Scan = record {
          small = small;
          big = big;
          scale = scale;
          seen_point = seen;
          int_digits = int;
        } in
            (total (stored s v) ≡ v)
            × Held (stored s v)
            × ((stored s v).scale ≡ s.scale)
            × ((stored s v).seen_point ≡ s.seen_point)
            × ((stored s v).int_digits ≡ s.int_digits))
    go none small scale seen int v h = elim (Bool-cases (leb v u64_max)) [
      | inl e ↦ rw e (refl, ground arith, refl, refl, refl)
      | inr e ↦ rw e (refl, h, refl, refl, refl)
    ]
    go (some w) small scale seen int v h = (refl, h, refl, refl, refl)

-- What one digit changes: the value, and the number of digits before or after the point.
pub record Pushed (s : Scan) (byte : ℕ) (s' : Scan) : Type 0 where
  pub bounded : total s * 10 + (byte - 48) < i128_half
  pub value : total s' ≡ total s * 10 + (byte - 48)
  pub held : Held s'
  pub point : s'.seen_point ≡ s.seen_point
  pub places : s'.scale ≡ (if s.seen_point then s.scale + 1 else s.scale)
  pub few : (s.seen_point ≡ false) ⊎ (s'.scale ≤ 18)
  pub counted : (s.seen_point ≡ true) ⊎ (0 < s'.int_digits)
  pub kept : (s.seen_point ≡ false) ⊎ (s'.int_digits ≡ s.int_digits)

count_digit_reads :
    (s : Scan) (byte : ℕ)
    → total s * 10 + (byte - 48) < i128_half
    → (s.seen_point ≡ false) ⊎ (s.scale < 18)
    → (s' : Scan) × (count_digit (stored s (total s * 10 + (byte - 48))) ≡ ok s') × Pushed s byte s'
unfolding count_digit
count_digit_reads s byte b room = go (total s * 10 + (byte - 48)) refl (Bool-cases s.seen_point)
  where
    go :
        (v : ℕ)
        → v ≡ total s * 10 + (byte - 48)
        → (s.seen_point ≡ true) ⊎ (s.seen_point ≡ false)
        → (s' : Scan) × (count_digit (stored s v) ≡ ok s') × Pushed s byte s'
    go v e (inl seen) =
        let (val, held, sc, pt, int) = stored_lem s v (omega (arith, e)) in
        (
          record (stored s v) { scale = s.scale + 1 },
          ground arith,
          record {
            bounded = b;
            value = ground arith;
            held = ground arith;
            point = pt;
            places = ground arith;
            few = ground arith;
            counted = inl seen;
            kept = inr int;
          },
        )
    go v e (inr plain) =
        let (val, held, sc, pt, int) = stored_lem s v (omega (arith, e)) in
        (
          record (stored s v) { int_digits = sat_add s.int_digits 1 },
          ground arith,
          record {
            bounded = b;
            value = ground arith;
            held = ground arith;
            point = pt;
            places = ground arith;
            few = inl plain;
            counted = inr (omega arith);
            kept = inl plain;
          },
        )

pub scan_byte_reads :
    (s : Scan) (at byte : ℕ)
    → Held s
    → IsDigit byte
    → total s * 10 + (byte - 48) < i128_half
    → (s.seen_point ≡ false) ⊎ (s.scale < 18)
    → (s' : Scan) × (scan_byte s at byte ≡ ok s') × Pushed s byte s'
unfolding scan_byte
scan_byte_reads s at byte h d b room =
    let (s', e, p) = count_digit_reads s byte b room in
    (s', ground (arith, push_digit_lem s (byte - 48) h), p)

count_digit_accepts :
    (s s' : Scan) (byte : ℕ)
    → total s * 10 + (byte - 48) < i128_half
    → count_digit (stored s (total s * 10 + (byte - 48))) ≡ ok s'
    → (s.seen_point ≡ false) ⊎ (s.scale < 18)
unfolding count_digit
count_digit_accepts s s' byte b e =
    go (total s * 10 + (byte - 48)) b (stored_lem s _ b) e (Bool-cases s.seen_point)
  where
    go :
        (v : ℕ)
        → v < i128_half
        → (total (stored s v) ≡ v)
          × Held (stored s v)
          × ((stored s v).scale ≡ s.scale)
          × ((stored s v).seen_point ≡ s.seen_point)
          × ((stored s v).int_digits ≡ s.int_digits)
        → count_digit (stored s v) ≡ ok s'
        → (s.seen_point ≡ true) ⊎ (s.seen_point ≡ false)
        → (s.seen_point ≡ false) ⊎ (s.scale < 18)
    go v h facts e (inr plain) = inl plain
    go v h facts e (inl seen) = elim (Bool-cases (ltb s.scale 18)) [
      | inl few ↦ inr (ground arith)
      | inr many ↦ absurd (ground (arith, facts.2, facts.3))
    ]

pub scan_byte_accepts :
    (s s' : Scan) (at byte : ℕ)
    → Held s
    → scan_byte s at byte ≡ ok s'
    → (IsDigit byte × Pushed s byte s')
      ⊎ ((byte ≡ 46)
          × (s.seen_point ≡ false)
          × (0 < s.int_digits)
          × (s' ≡ record s { seen_point = true }))
unfolding scan_byte
scan_byte_accepts s s' at byte h e = elim (Bool-cases (is_digit byte)) [
  | inr other ↦ inr (point (Bool-cases (byte == 46)) (Bool-cases s.seen_point) other)
  | inl d ↦ elim (Bool-cases (ltb (total s * 10 + (byte - 48)) i128_half)) [
    | inr big ↦ absurd (ground (arith, push_digit_lem s (byte - 48) h))
    | inl b ↦ inl (d, digit d (ground arith) (ground (arith, push_digit_lem s (byte - 48) h)))
  ]
]
  where
    digit :
        IsDigit byte
        → total s * 10 + (byte - 48) < i128_half
        → count_digit (stored s (total s * 10 + (byte - 48))) ≡ ok s'
        → Pushed s byte s'
    digit d b c =
        let (s'', e', p) = count_digit_reads s byte b (count_digit_accepts s s' byte b c) in
        subst (λ t. Pushed s byte t) (cc) p

    point :
        (byte == 46 ≡ true) ⊎ (byte == 46 ≡ false)
        → (s.seen_point ≡ true) ⊎ (s.seen_point ≡ false)
        → is_digit byte ≡ false
        → (byte ≡ 46)
          × (s.seen_point ≡ false)
          × (0 < s.int_digits)
          × (s' ≡ record s { seen_point = true })
    point (inr a) seen o = absurd (ground arith)
    point (inl a) (inl seen) o = absurd (ground arith)
    point (inl a) (inr plain) o = (ground arith, plain, ground arith, ground arith)
