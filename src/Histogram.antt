-- ===== src/Histogram.antt =====
-- The log-linear latency histogram, crates/bowst-telemetry/src/histogram.rs.
pub mod Buckets
pub mod Percentile
pub mod Close
pub mod Merge
mod Tests
use bowst.Prelude.{
  ℕ, zero, suc, ◌+◌, ◌-◌, ◌*◌, ◌/◌, ◌%◌, ◌^◌, min, max, Option, none, some, List, [], ◌∷◌,
  replicate, ltb, leb, ◌==◌, if◌then◌else◌, sat_add, sat_mul128, div_ceil, u64_max, wrapping_sub32,
  wrapping_sub64, leading_zeros, checked_shl,
}

abbrev pub sub_bits : ℕ
sub_bits = 5

abbrev pub sub_buckets : ℕ
sub_buckets = 32

abbrev pub buckets : ℕ
buckets = 1920

pub record LatencyHistogram : Type 0 where
  pub counts : List ℕ
  pub count : ℕ
  pub sum : ℕ
  pub largest : ℕ
  pub least : ℕ

pub record LatencySummary : Type 0 where
  pub count : ℕ
  pub sum : ℕ
  pub least : ℕ
  pub p50 : ℕ
  pub p90 : ℕ
  pub p99 : ℕ
  pub p999 : ℕ
  pub largest : ℕ

unfoldable pub new : LatencyHistogram
new = record { counts = replicate buckets 0; count = 0; sum = 0; largest = 0; least = u64_max }

unfoldable pub bucket_of : ℕ → ℕ
bucket_of value =
    if ltb value sub_buckets
    then value
    else (let top = wrapping_sub32 63 (leading_zeros 64 value) in
        let shift = wrapping_sub32 top sub_bits in
        let group = (shift + 1) % 2 ^ 32 in
        let sub = wrapping_sub64 (value / 2 ^ shift) sub_buckets in
        (group * sub_buckets % 2 ^ 64 + sub) % 2 ^ 64)

unfoldable pub upper_bound : ℕ → ℕ
upper_bound index =
    if leb buckets index
    then u64_max
    else if ltb index sub_buckets
    then index
    else (let shift = index / sub_buckets - 1 in
        elim (checked_shl (sat_add sub_buckets (index % sub_buckets)) shift) [
          | none ↦ u64_max
          | some low ↦ elim (checked_shl 1 shift) [
            | none ↦ u64_max
            | some width ↦ sat_add low (width - 1)
          ]
        ])

-- `if let Some(slot) = self.counts.get_mut(index) { *slot = slot.saturating_add(1) }`.
unfoldable pub count_in : List ℕ → ℕ → List ℕ
count_in [] index = []
count_in (n ∷ ns) zero = sat_add n 1 ∷ ns
count_in (n ∷ ns) (suc index) = n ∷ count_in ns index

unfoldable pub record_value : LatencyHistogram → ℕ → LatencyHistogram
record_value h nanos = record {
  counts = count_in h.counts (bucket_of nanos);
  count = sat_add h.count 1;
  sum = sat_add h.sum nanos;
  largest = max h.largest nanos;
  least = min h.least nanos;
}

abbrev pub min_value : LatencyHistogram → ℕ
min_value h = if h.count == 0 then 0 else h.least

unfoldable pub rank_for : ℕ → ℕ → ℕ
rank_for count ppm = max (min (div_ceil (sat_mul128 count ppm) 1000000) u64_max) 1

-- The loop of `value_at_ppm` over the counts from `index` on.
unfoldable pub walk : ℕ → ℕ → List ℕ → ℕ → ℕ → ℕ
walk rank largest [] index seen = largest
walk rank largest (n ∷ ns) index seen =
    let rest = walk rank largest ns (index + 1) (sat_add seen n) in
    if leb rank (sat_add seen n) then min (upper_bound index) largest else rest

unfoldable pub value_at_ppm : LatencyHistogram → ℕ → ℕ
value_at_ppm h ppm =
    if h.count == 0 then 0 else walk (rank_for h.count (min ppm 1000000)) h.largest h.counts 0 0

abbrev pub summary : LatencyHistogram → LatencySummary
summary h = record {
  count = h.count;
  sum = h.sum;
  least = min_value h;
  p50 = value_at_ppm h 500000;
  p90 = value_at_ppm h 900000;
  p99 = value_at_ppm h 990000;
  p999 = value_at_ppm h 999000;
  largest = h.largest;
}

-- Both have as many buckets; `zip` stops at the shorter list, whose counts then stay.
unfoldable pub merge_counts : List ℕ → List ℕ → List ℕ
merge_counts [] theirs = []
merge_counts (n ∷ ns) [] = n ∷ ns
merge_counts (n ∷ ns) (m ∷ ms) = sat_add n m ∷ merge_counts ns ms

unfoldable pub merge : LatencyHistogram → LatencyHistogram → LatencyHistogram
merge h other = record {
  counts = merge_counts h.counts other.counts;
  count = sat_add h.count other.count;
  sum = sat_add h.sum other.sum;
  largest = max h.largest other.largest;
  least = min h.least other.least;
}

-- `counts.fill(0)`.
unfoldable pub zeroed : List ℕ → List ℕ
zeroed [] = []
zeroed (n ∷ ns) = 0 ∷ zeroed ns

abbrev pub reset : LatencyHistogram → LatencyHistogram
reset h = record { counts = zeroed h.counts; count = 0; sum = 0; largest = 0; least = u64_max }
