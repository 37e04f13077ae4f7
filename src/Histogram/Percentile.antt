-- ===== src/Histogram/Percentile.antt =====
-- A percentile never understates: the share that was asked for lies at or below it.
use bowst.Prelude.{
  length-replicate, ℕ, zero, suc, ◌+◌, ◌-◌, ◌*◌, ◌/◌, ◌%◌, ◌^◌, ◌<◌, ◌≤◌, ◌≡◌, refl, ap, ◌∙◌, ◌⊎◌,
  min, Bool-cases, true, false, inl, inr, ltb, leb, ◌==◌, if◌then◌else◌, u64_max, sat_mul128, List,
  [], ◌∷◌, length, replicate, All, All-imp, sat_add, div_ceil-enough, div_ceil-least, arith,
}
use native.Mathlib.Nat.{pow-succ', mul-le-mul, mul-le-mul_right}
use bowst.Histogram.{
  LatencyHistogram, new, bucket_of, upper_bound, buckets, count_in, record_value, rank_for, walk,
  value_at_ppm,
}
use bowst.Histogram.Buckets.{upper_bound_shape, upper_bound-bucket_of, exact_bucket}

upper_bound_at :
    (i : ℕ)
    → 32 ≤ i
    → i < buckets
    → upper_bound i ≡ (32 + i % 32) * 2 ^ (i / 32 - 1) + (2 ^ (i / 32 - 1) - 1)
upper_bound_at i lo hi =
    let e : i ≡ (i / 32 - 1 + 1) * 32 + i % 32 = omega arith in
    ap upper_bound e ∙ upper_bound_shape (i / 32 - 1) (i % 32) (omega arith) (omega arith)

exact_at : (i : ℕ) → i < 32 → upper_bound i ≡ i
exact_at i h = (exact_bucket i (ground arith)).1

upper_bound_wide : (i : ℕ) → 32 ≤ i → i + 1 < buckets → upper_bound i ≤ upper_bound (i + 1)
upper_bound_wide i lo h =
    let now = upper_bound_at i lo (omega arith) in
    let next = upper_bound_at (i + 1) (omega arith) h in
    elim (Bool-cases (ltb (i % 32) 31)) [
      | inl inside ↦
          let s : (i + 1) / 32 - 1 ≡ i / 32 - 1 = ground arith in
          let r : (i + 1) % 32 ≡ i % 32 + 1 = ground arith in
          let grow =
            mul-le-mul_right {m = 32 + i % 32} {n = 32 + (i % 32 + 1)} (2 ^ (i / 32 - 1))
              (omega arith) in
          omega (arith, now, rw (s, r) at next, grow)
      | inr edge ↦
          let s : (i + 1) / 32 - 1 ≡ suc (i / 32 - 1) = ground arith in
          let r : (i + 1) % 32 ≡ 0 = ground arith in
          let last : i % 32 ≡ 31 = ground arith in
          omega (arith, rw last at now, rw (s, r) at next, pow-succ' 2 (i / 32 - 1))
    ]

upper_bound_step : (i : ℕ) → i + 1 < buckets → upper_bound i ≤ upper_bound (i + 1)
upper_bound_step i h = elim (Bool-cases (ltb (i + 1) 32)) [
  | inl exact ↦ omega (arith, exact_at i (ground arith), exact_at (i + 1) (ground arith))
  | inr above ↦ elim (Bool-cases (ltb i 32)) [
    | inl last ↦
        let e : i ≡ 31 = ground arith in
        rw e
          (omega (arith, exact_at 31 (omega arith), upper_bound_at 32 (omega arith) (omega arith)))
    | inr wide ↦ upper_bound_wide i (ground arith) h
  ]
]

pub upper_bound_mono : (d i : ℕ) → i + d < buckets → upper_bound i ≤ upper_bound (i + d)
upper_bound_mono zero i h = let e : i + 0 ≡ i = omega arith in rw e (omega arith)
upper_bound_mono (suc d) i h =
    let e : i + suc d ≡ i + d + 1 = omega arith in
    rw e (omega (arith, upper_bound_mono d i (omega arith), upper_bound_step (i + d) (omega arith)))

-- How many of the values are at most `x`.
unfoldable pub below : List ℕ → ℕ → ℕ
below [] x = 0
below (v ∷ vs) x = (if leb v x then 1 else 0) + below vs x

-- The histogram of a list of values, the last one recorded first in the list.
unfoldable pub histogram_of : List ℕ → LatencyHistogram
histogram_of [] = new
histogram_of (v ∷ vs) = record_value (histogram_of vs) v

-- The sum of the first counts.
unfoldable pub sum_first : ℕ → List ℕ → ℕ
sum_first zero ns = 0
sum_first (suc k) [] = 0
sum_first (suc k) (n ∷ ns) = n + sum_first k ns

sum_first-count_in :
    (k j : ℕ) (ns : List ℕ)
    → sum_first k (count_in ns j) ≤ (if ltb j k then 1 else 0) + sum_first k ns
unfolding sum_first count_in
sum_first-count_in zero j ns = ground arith
sum_first-count_in (suc k) j [] = ground arith
sum_first-count_in (suc k) zero (n ∷ ns) = ground arith
sum_first-count_in (suc k) (suc j) (n ∷ ns) = ground (arith, sum_first-count_in k j ns)

sum_first-replicate : (k n : ℕ) → sum_first k (replicate n 0) ≡ 0
unfolding sum_first
sum_first-replicate zero n = refl
sum_first-replicate (suc k) zero = refl
sum_first-replicate (suc k) (suc n) = omega (arith, sum_first-replicate k n)

pub length-count_in : (ns : List ℕ) (j : ℕ) → length (count_in ns j) ≡ length ns
unfolding count_in
length-count_in [] j = refl
length-count_in (n ∷ ns) zero = refl
length-count_in (n ∷ ns) (suc j) = ap suc (length-count_in ns j)

-- What a histogram keeps of the values recorded in it.
pub record Keeps (h : LatencyHistogram) (vs : List ℕ) : Type 0 where
  pub size : length h.counts ≡ buckets
  pub total : h.count ≡ min (length vs) u64_max
  pub top : All (λ v. v ≤ h.largest) vs
  pub prefix : (i : ℕ) → i < buckets → sum_first (suc i) h.counts ≤ below vs (upper_bound i)

counted_below :
    (v i : ℕ)
    → v < 2 ^ 64
    → i < buckets
    → (if ltb (bucket_of v) (suc i) then 1 else 0) ≤ (if leb v (upper_bound i) then 1 else 0)
counted_below v i h b = elim (Bool-cases (ltb (bucket_of v) (suc i))) [
  | inr out ↦ rw out (omega arith)
  | inl within ↦
      let (_, le, _) = upper_bound-bucket_of v h in
      let e : bucket_of v + (i - bucket_of v) ≡ i = ground arith in
      let up = rw e at (upper_bound_mono (i - bucket_of v) (bucket_of v) (rw e b)) in
      let covered : leb v (upper_bound i) ≡ true = ground (arith, le, up) in
      rw (within, covered) (omega arith)
]

pub histogram_of-Keeps : (vs : List ℕ) → All (λ v. v < 2 ^ 64) vs → Keeps (histogram_of vs) vs
unfolding histogram_of new record_value below
histogram_of-Keeps [] w = record {
  size = length-replicate {A = ℕ} buckets 0;
  total = refl;
  top = tt;
  prefix = λ i h. omega (arith, sum_first-replicate (suc i) buckets);
}
histogram_of-Keeps (v ∷ vs) (b, w) =
    let k = histogram_of-Keeps vs w in
    let h = histogram_of vs in
    record {
      size = length-count_in h.counts (bucket_of v) ∙ k.size;
      total = omega (arith, k.total);
      top = (omega arith, All-imp (λ x le. omega arith) vs k.top);
      prefix = λ i l. omega (
        arith,
        sum_first-count_in (suc i) (bucket_of v) h.counts,
        counted_below v i b l,
        k.prefix i l,
      );
    }

-- What the loop of `value_at_ppm` may answer.
Answers : (ℕ → ℕ) → ℕ → ℕ → ℕ → Type 0
Answers reach rank largest x =
    ((i : ℕ) × (i < buckets) × (rank ≤ reach i) × (x ≡ min (upper_bound i) largest)) ⊎ (x ≡ largest)

walk-Answers :
    (reach : ℕ → ℕ) (rank largest : ℕ) (ns : List ℕ) (index seen acc : ℕ)
    → seen ≤ acc
    → index + length ns ≡ buckets
    → ((k : ℕ) → k < length ns → acc + sum_first (suc k) ns ≤ reach (index + k))
    → Answers reach rank largest (walk rank largest ns index seen)
unfolding walk sum_first Answers
walk-Answers reach rank largest [] index seen acc le n h = inr refl
walk-Answers reach rank largest (m ∷ ns) index seen acc le n h =
    elim (Bool-cases (leb rank (sat_add seen m))) [
      | inl here ↦
          let e : index + 0 ≡ index = omega arith in
          let first = rw e at (h 0 (omega arith)) in
          rw here (inl (index, omega arith, ground arith, refl))
      | inr on ↦ rw on (
          walk-Answers reach rank largest ns (index + 1) (sat_add seen m) (acc + m) (omega arith)
            (omega arith)
            (λ k l.
              let e : index + suc k ≡ index + 1 + k = omega arith in
              let next = rw e at (h (suc k) (omega arith)) in omega (arith, next)))
    ]

below-All : (vs : List ℕ) (x : ℕ) → All (λ v. v ≤ x) vs → below vs x ≡ length vs
unfolding below
below-All [] x a = refl
below-All (v ∷ vs) x (h, a) = ground (arith, below-All vs x a)

-- Capping at a bound of all values loses none.
below-min : (vs : List ℕ) (x top : ℕ) → All (λ v. v ≤ top) vs → below vs (min x top) ≡ below vs x
unfolding below
below-min [] x top a = refl
below-min (v ∷ vs) x top (h, a) = ground (arith, below-min vs x top a)

-- The rank asked for is the share of the values, rounded up, and at most all of them.
pub rank_for_lem :
    (n ppm : ℕ)
    → 0 < n
    → n ≤ u64_max
    → ppm ≤ 1000000
    → (n * ppm ≤ rank_for n ppm * 1000000) × (rank_for n ppm ≤ n)
unfolding rank_for
rank_for_lem n ppm p h m =
    let le : n * ppm ≤ n * 1000000 =
      mul-le-mul {n₁ = n} {m₁ = ppm} {n₂ = n} {m₂ = 1000000} (omega arith) m in
    let exact : sat_mul128 n ppm ≡ n * ppm = omega (arith, le) in
    let enough = div_ceil-enough (n * ppm) 1000000 (omega arith) in
    let least = div_ceil-least (n * ppm) 1000000 n (omega arith) le in
    rw exact (omega (arith, enough, least), omega (arith, least))

value-Answers :
    (vs : List ℕ) (ppm : ℕ)
    → All (λ v. v < 2 ^ 64) vs
    → 0 < length vs
    → Answers
        (λ i. below vs (upper_bound i))
        (rank_for (histogram_of vs).count (min ppm 1000000))
        (histogram_of vs).largest
        (value_at_ppm (histogram_of vs) ppm)
unfolding value_at_ppm
value-Answers vs ppm w p =
    let k = histogram_of-Keeps vs w in
    let h = histogram_of vs in
    let some_values : h.count == 0 ≡ false = ground (arith, k.total) in
    rw some_values (
      walk-Answers (λ i. below vs (upper_bound i)) (rank_for h.count (min ppm 1000000)) h.largest
        h.counts 0 0 0 (omega arith) (omega (arith, k.size))
        (λ i l.
          let e : 0 + i ≡ i = omega arith in rw e (omega (arith, k.prefix i (rw (← k.size) l)))))

-- At least the share of the recorded values that was asked for, in parts per million up to a
-- million, is at or below the percentile that the histogram reports. At least one and fewer than
-- 2^64 values were recorded, each below 2^64.
pub value_at_ppm_covers :
    (vs : List ℕ) (ppm : ℕ)
    → All (λ v. v < 2 ^ 64) vs
    → 0 < length vs
    → length vs ≤ u64_max
    → ppm ≤ 1000000
    → length vs * ppm ≤ below vs (value_at_ppm (histogram_of vs) ppm) * 1000000
unfolding Answers
value_at_ppm_covers vs ppm w p l m = go (value-Answers vs ppm w p)
  where
    k : Keeps (histogram_of vs) vs
    k = histogram_of-Keeps vs w

    rank : ℕ
    rank = rank_for (length vs) ppm

    same : rank_for (histogram_of vs).count (min ppm 1000000) ≡ rank
    same =
        let a : (histogram_of vs).count ≡ length vs = omega (arith, k.total) in
        let b : min ppm 1000000 ≡ ppm = omega arith in rw (a, b) refl

    go :
        Answers
          (λ i. below vs (upper_bound i))
          (rank_for (histogram_of vs).count (min ppm 1000000))
          (histogram_of vs).largest
          (value_at_ppm (histogram_of vs) ppm)
        → length vs * ppm ≤ below vs (value_at_ppm (histogram_of vs) ppm) * 1000000
    go (inl (i, b, r, e)) =
        let (share, _) = rank_for_lem (length vs) ppm p l m in
        rw (e, below-min vs (upper_bound i) (histogram_of vs).largest k.top)
          (omega (arith, share, rw same at r))
    go (inr e) =
        let (share, most) = rank_for_lem (length vs) ppm p l m in
        rw (e, below-All vs (histogram_of vs).largest k.top) (omega (arith, share, most))
