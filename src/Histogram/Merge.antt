-- ===== src/Histogram/Merge.antt =====
-- Merging histograms is recording both lists of values.
use bowst.Prelude.{
  length-replicate, ℕ, zero, suc, ◌≤◌, ◌≡◌, refl, ap, ◌∙◌, u64_max, List, [], ◌∷◌, ◌++◌, length,
  replicate, All, sat_add, arith,
}
use bowst.Histogram.{
  LatencyHistogram, new, bucket_of, buckets, count_in, record_value, merge_counts, merge,
}
use bowst.Histogram.Percentile.{histogram_of, length-count_in}

abbrev IsWords : List ℕ → Type 0
IsWords ns = All (λ n. n ≤ u64_max) ns

count_in-IsWords : (ns : List ℕ) (j : ℕ) → IsWords ns → IsWords (count_in ns j)
unfolding count_in
count_in-IsWords [] j w = tt
count_in-IsWords (n ∷ ns) zero (h, w) = (omega arith, w)
count_in-IsWords (n ∷ ns) (suc j) (h, w) = (h, count_in-IsWords ns j w)

replicate-IsWords : (n : ℕ) → IsWords (replicate n 0)
replicate-IsWords zero = tt
replicate-IsWords (suc n) = (omega arith, replicate-IsWords n)

merge_counts-replicate :
    (n : ℕ) (ms : List ℕ) → length ms ≡ n → IsWords ms → merge_counts (replicate n 0) ms ≡ ms
unfolding merge_counts
merge_counts-replicate zero [] e w = refl
merge_counts-replicate zero (m ∷ ms) e w = absurd (omega arith)
merge_counts-replicate (suc n) [] e w = absurd (omega arith)
merge_counts-replicate (suc n) (m ∷ ms) e (h, w) =
    let ih = merge_counts-replicate n ms (omega arith) w in
    let first : sat_add 0 m ≡ m = omega arith in cc

merge_counts-count_in :
    (ns : List ℕ) (j : ℕ) (ms : List ℕ)
    → merge_counts (count_in ns j) ms ≡ count_in (merge_counts ns ms) j
unfolding merge_counts count_in
merge_counts-count_in [] j ms = refl
merge_counts-count_in (n ∷ ns) zero [] = refl
merge_counts-count_in (n ∷ ns) (suc j) [] = refl
merge_counts-count_in (n ∷ ns) zero (m ∷ ms) =
    let e : sat_add (sat_add n 1) m ≡ sat_add (sat_add n m) 1 = omega arith in cc
merge_counts-count_in (n ∷ ns) (suc j) (m ∷ ms) = let ih = merge_counts-count_in ns j ms in cc

record IsSized (h : LatencyHistogram) : Type 0 where
  size : length h.counts ≡ buckets
  words : IsWords h.counts
  count_word : h.count ≤ u64_max
  sum_word : h.sum ≤ u64_max
  least_word : h.least ≤ u64_max

histogram_of-IsSized : (vs : List ℕ) → IsSized (histogram_of vs)
unfolding histogram_of new record_value
histogram_of-IsSized [] = record {
  size = length-replicate {A = ℕ} buckets 0;
  words = replicate-IsWords buckets;
  count_word = omega arith;
  sum_word = omega arith;
  least_word = omega arith;
}
histogram_of-IsSized (v ∷ vs) =
    let s = histogram_of-IsSized vs in
    record {
      size = length-count_in (histogram_of vs).counts (bucket_of v) ∙ s.size;
      words = count_in-IsWords (histogram_of vs).counts (bucket_of v) s.words;
      count_word = omega arith;
      sum_word = omega arith;
      least_word = omega (arith, s.least_word);
    }

same_histogram :
    (h k : LatencyHistogram)
    → h.counts ≡ k.counts
    → h.count ≡ k.count
    → h.sum ≡ k.sum
    → h.largest ≡ k.largest
    → h.least ≡ k.least
    → h ≡ k
same_histogram h k a b c d e = cc

merge-record_value :
    (h k : LatencyHistogram) (v : ℕ) → merge (record_value h v) k ≡ record_value (merge h k) v
unfolding merge record_value
merge-record_value h k v =
    same_histogram (merge (record_value h v) k) (record_value (merge h k) v)
      (merge_counts-count_in h.counts (bucket_of v) k.counts) (omega arith) (omega arith)
      (omega arith) (omega arith)

merge-new : (k : LatencyHistogram) → IsSized k → merge new k ≡ k
unfolding merge new
merge-new k s =
    same_histogram (merge new k) k (merge_counts-replicate buckets k.counts s.size s.words)
      (omega (arith, s.count_word)) (omega (arith, s.sum_word)) (omega arith)
      (omega (arith, s.least_word))

-- Merging the histograms of two lists of values gives the histogram of both lists together, also
-- where counts or sums saturate.
pub merge-histogram_of :
    (vs ws : List ℕ) → merge (histogram_of vs) (histogram_of ws) ≡ histogram_of (vs ++ ws)
unfolding histogram_of
merge-histogram_of [] ws = merge-new (histogram_of ws) (histogram_of-IsSized ws)
merge-histogram_of (v ∷ vs) ws =
    merge-record_value (histogram_of vs) (histogram_of ws) v
    ∙ ap (λ h. record_value h v) (merge-histogram_of vs ws)
