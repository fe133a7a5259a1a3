-- ===== src/Histogram/Tests.antt =====
-- Runs of src/perf/histogram.rs.
use enclave.Histogram.{latency_buckets_us, percentile_of_buckets, bucket_upper_bound}
use enclave.Histogram.Percentile.{samples, samples_below, percentile_of_buckets_lem}
use enclave.Common.{ℕ, ◌+◌, ◌*◌, ◌≤◌, ◌<◌, List, [], ◌∷◌, some, none, ◌≡◌, refl, ◌⊎◌, arith}

abbrev counts : List ℕ
counts = 5 ∷ 3 ∷ 0 ∷ 0 ∷ 1 ∷ 0 ∷ 0 ∷ 1 ∷ []

percentile_99 : percentile_of_buckets counts 99 latency_buckets_us ≡ some 250_000
unfolding percentile_of_buckets bucket_upper_bound
percentile_99 = refl

percentile-empty : percentile_of_buckets (0 ∷ 0 ∷ []) 50 latency_buckets_us ≡ none
unfolding percentile_of_buckets
percentile-empty = refl

percentile_of_buckets_lem_example :
    (i : ℕ) × (percentile_of_buckets counts 50 latency_buckets_us
      ≡ some (bucket_upper_bound i latency_buckets_us))
    × (samples counts * 50 ≤ 100 * samples_below (i + 1) counts)
    × ((100 * samples_below i counts < samples counts * 50) ⊎ (samples_below i counts ≡ 0))
percentile_of_buckets_lem_example =
    percentile_of_buckets_lem counts 50 latency_buckets_us (omega arith) (omega arith) (omega arith)
      (omega arith)
