-- ===== src/Histogram/Close.antt =====
-- A percentile overstates by little: it is within 1/32 of a value that was recorded.
use bowst.Prelude.{
  ℕ, zero, suc, ◌+◌, ◌*◌, ◌^◌, ◌<◌, ◌≤◌, ◌≡◌, refl, sym, ap, ◌∙◌, ◌⊎◌, min, Bool-cases, false, inl,
  inr, leb, ◌==◌, some, List, [], ◌∷◌, replicate, get_elem?, All, All-get_elem?, sat_add, arith,
}
use bowst.Histogram.{
  new, bucket_of, upper_bound, buckets, count_in, record_value, rank_for, walk, value_at_ppm,
}
use bowst.Histogram.Buckets.{upper_bound-bucket_of}
use bowst.Histogram.Percentile.{histogram_of, histogram_of-Keeps}

-- A recorded value, with a property.
abbrev pub Recorded : List ℕ → (ℕ → Type 0) → Type 0
Recorded vs P = (j v : ℕ) × (get_elem? vs j ≡ some v) × P v

later : (vs : List ℕ) (x : ℕ) (P : ℕ → Type 0) → Recorded vs P → Recorded (x ∷ vs) P
later vs x P (j, v, e, p) = (suc j, v, e, p)

get_elem?-replicate : (n k m : ℕ) → get_elem? (replicate n 0) k ≡ some m → m ≡ 0
get_elem?-replicate zero k m e = absurd (cc)
get_elem?-replicate (suc n) zero m e = ground arith
get_elem?-replicate (suc n) (suc k) m e = get_elem?-replicate n k m e

-- A count that rose at an index, or was there.
get_elem?-count_in :
    (ns : List ℕ) (j k m : ℕ)
    → get_elem? (count_in ns j) k ≡ some m
    → (k ≡ j) ⊎ (get_elem? ns k ≡ some m)
unfolding count_in
get_elem?-count_in [] j k m e = inr e
get_elem?-count_in (n ∷ ns) zero zero m e = inl refl
get_elem?-count_in (n ∷ ns) zero (suc k) m e = inr e
get_elem?-count_in (n ∷ ns) (suc j) zero m e = inr e
get_elem?-count_in (n ∷ ns) (suc j) (suc k) m e = elim (get_elem?-count_in ns j k m e) [
  | inl h ↦ inl (ap suc h)
  | inr h ↦ inr h
]

counted :
    (vs : List ℕ) (k m : ℕ)
    → get_elem? (histogram_of vs).counts k ≡ some m
    → 0 < m
    → Recorded vs (λ v. bucket_of v ≡ k)
unfolding histogram_of new record_value
counted [] k m e p = absurd (omega (arith, get_elem?-replicate buckets k m e))
counted (v ∷ vs) k m e p = elim (get_elem?-count_in (histogram_of vs).counts (bucket_of v) k m e) [
  | inl h ↦ (0, v, refl, sym h)
  | inr h ↦ later vs v _ (counted vs k m h p)
]

-- The largest value was recorded.
largest_recorded :
    (v : ℕ) (vs : List ℕ) → Recorded (v ∷ vs) (λ x. (histogram_of (v ∷ vs)).largest ≡ x)
unfolding histogram_of new record_value
largest_recorded v [] = (0, v, refl, omega arith)
largest_recorded v (x ∷ vs) = elim (Bool-cases (leb (histogram_of (x ∷ vs)).largest v)) [
  | inl up ↦ (0, v, refl, ground arith)
  | inr down ↦
      let (j, y, e, h) = largest_recorded x vs in
      (suc j, y, e, unfold histogram_of in ground (arith, h))
]

Stops : List ℕ → ℕ → ℕ → ℕ → Type 0
Stops ns index largest x =
    ((k m : ℕ) × (get_elem? ns k ≡ some m) × (0 < m) × (x ≡ min (upper_bound (index + k)) largest))
    ⊎ (x ≡ largest)

walk-Stops :
    (rank largest : ℕ) (ns : List ℕ) (index seen : ℕ)
    → seen < rank
    → Stops ns index largest (walk rank largest ns index seen)
unfolding walk Stops
walk-Stops rank largest [] index seen lt = inr refl
walk-Stops rank largest (n ∷ ns) index seen lt = elim (Bool-cases (leb rank (sat_add seen n))) [
  | inl here ↦
      let e : index ≡ index + 0 = omega arith in
      rw here (inl (0, n, refl, ground arith, ap (λ t. min (upper_bound t) largest) e))
  | inr on ↦ elim (walk-Stops rank largest ns (index + 1) (sat_add seen n) (ground arith)) [
    | inl (k, m, g, p, x) ↦
        let e : index + 1 + k ≡ index + suc k = omega arith in
        rw on (inl (suc k, m, g, p, x ∙ ap (λ t. min (upper_bound t) largest) e))
    | inr x ↦ rw on (inr x)
  ]
]

-- `x` is at least `v`, and above it by at most 1/32 of it.
abbrev pub Close : ℕ → ℕ → Type 0
Close x v = (v ≤ x) × (32 * x ≤ 32 * v + v)

stopped-Close :
    (v : ℕ) (vs : List ℕ) (x : ℕ)
    → All (λ y. y < 2 ^ 64) (v ∷ vs)
    → Stops (histogram_of (v ∷ vs)).counts 0 (histogram_of (v ∷ vs)).largest x
    → Recorded (v ∷ vs) (Close x)
unfolding Stops
stopped-Close v vs x w (inr e) =
    let (j, y, g, h) = largest_recorded v vs in
    (j, y, g, (omega (arith, e, h), omega (arith, e, h)))
stopped-Close v vs x w (inl (k, m, g, p, e)) =
    let (j, y, r, b) = counted (v ∷ vs) k m g p in
    let (_, lo, hi) = upper_bound-bucket_of y (All-get_elem? _ (v ∷ vs) j y w r) in
    let top = All-get_elem? _ (v ∷ vs) j y (histogram_of-Keeps (v ∷ vs) w).top r in
    let at_k : 0 + k ≡ bucket_of y = omega (arith, b) in
    let e' : x ≡ min (upper_bound (bucket_of y)) (histogram_of (v ∷ vs)).largest =
      e ∙ ap (λ t. min (upper_bound t) (histogram_of (v ∷ vs)).largest) at_k in
    (j, y, r, (omega (arith, e', lo, top), omega (arith, e', hi)))

-- The percentile that a histogram reports is at least some recorded value, and above that value by
-- at most 1/32 of it. Some value was recorded, and all values are below 2^64.
pub value_at_ppm-Close :
    (v : ℕ) (vs : List ℕ) (ppm : ℕ)
    → All (λ x. x < 2 ^ 64) (v ∷ vs)
    → Recorded (v ∷ vs) (Close (value_at_ppm (histogram_of (v ∷ vs)) ppm))
unfolding value_at_ppm rank_for
value_at_ppm-Close v vs ppm w =
    let h = histogram_of (v ∷ vs) in
    let k = histogram_of-Keeps (v ∷ vs) w in
    let some_values : h.count == 0 ≡ false = ground (arith, k.total) in
    rw some_values (
      stopped-Close v vs _ w
        (walk-Stops (rank_for h.count (min ppm 1000000)) h.largest h.counts 0 0 (omega arith)))
