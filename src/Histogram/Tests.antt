-- ===== src/Histogram/Tests.antt =====
-- The histogram on three values.
use bowst.Prelude.{
  ℕ, ◌≡◌, refl, ◌*◌, ◌^◌, ◌<◌, ◌≤◌, arith, All, length, List, [], ◌∷◌, ◌++◌, leading_zeros,
  checked_shl,
}
use bowst.Histogram.{bucket_of, upper_bound, merge, value_at_ppm}
use bowst.Histogram.Percentile.{below, histogram_of, value_at_ppm_covers}
use bowst.Histogram.Close.{Recorded, Close, value_at_ppm-Close}
use bowst.Histogram.Merge.{merge-histogram_of}

abbrev values : List ℕ
values = 1000 ∷ 40 ∷ 7 ∷ []

bucket_of_1000 : bucket_of 1000 ≡ 190
unfolding bucket_of leading_zeros
bucket_of_1000 = refl

upper_bound_190 : upper_bound 190 ≡ 1007
unfolding upper_bound checked_shl
upper_bound_190 = refl

values-All : All (λ v. v < 2 ^ 64) values
values-All = (omega arith, (omega arith, (omega arith, tt)))

value_at_ppm_covers_example :
    length values * 500000 ≤ below values (value_at_ppm (histogram_of values) 500000) * 1000000
value_at_ppm_covers_example =
    value_at_ppm_covers values 500000 values-All (omega arith) (omega arith) (omega arith)

value_at_ppm-Close_example : Recorded values (Close (value_at_ppm (histogram_of values) 500000))
value_at_ppm-Close_example = value_at_ppm-Close 1000 (40 ∷ 7 ∷ []) 500000 values-All

merge-histogram_of_example :
    merge (histogram_of values) (histogram_of (5 ∷ [])) ≡ histogram_of (values ++ (5 ∷ []))
merge-histogram_of_example = merge-histogram_of values (5 ∷ [])
