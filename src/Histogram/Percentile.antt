-- ===== src/Histogram/Percentile.antt =====
-- What a histogram records and what its percentiles say: src/perf/histogram.rs.
use enclave.Histogram.{
  u64_mod, u64_max, get_or, position_from, unwrap_or, bucket_index, increment, record_histogram,
  bucket_upper_bound, sum_u64, target_count, first_reaching, upper_bound_of, percentile_of_buckets,
}
use native.Mathlib.Decide.{dec_le}
use native.Mathlib.Nat.{mul-le-mul_left}
use enclave.Common.{
  ℕ, ◌+◌, ◌*◌, ◌/◌, ◌≤◌, ◌<◌, List, [], ◌∷◌, some, length, total, min, max, ◌≡◌, refl, ◌⊎◌, arith,
}

-- The number of samples of a histogram, and of its first buckets.
abbrev pub samples : List ℕ → ℕ
samples counts = total (λ n. n) counts

abbrev pub samples_below : ℕ → List ℕ → ℕ
samples_below ℕ.zero counts = 0
samples_below (ℕ.suc i) [] = 0
samples_below (ℕ.suc i) (n ∷ ns) = n + samples_below i ns

sum_u64_lem : (counts : List ℕ) → samples counts < u64_mod → sum_u64 counts ≡ samples counts
unfolding sum_u64
sum_u64_lem [] h = refl
sum_u64_lem (n ∷ ns) h = ground (arith, sum_u64_lem ns)

first_reaching_lem :
    (target index cumulative : ℕ) (counts : List ℕ)
    → cumulative + samples counts < u64_mod
    → cumulative < target
    → target ≤ cumulative + samples counts
    → (i : ℕ) × (first_reaching target index cumulative counts ≡ some (index + i))
      × (target ≤ cumulative + samples_below (i + 1) counts)
      × (cumulative + samples_below i counts < target)
unfolding first_reaching
first_reaching_lem target index cumulative [] small below reach = absurd (omega arith)
first_reaching_lem target index cumulative (n ∷ ns) small below reach =
    elim (dec_le target (cumulative + n)) [
      | yes p ↦ (0, ground arith, omega arith, omega arith)
      | no p ↦
          let (i, e, up, low) =
            first_reaching_lem target (index + 1) (cumulative + n) ns (omega arith) (omega arith)
              (omega arith) in
          (i + 1, ground arith, ground arith, ground arith)
    ]

-- The arithmetic of the target, on the product `t`.
ceiling_bounds :
    (n t : ℕ)
    → 0 < n
    → t ≤ u64_max
    → t ≤ n * 100
    → (0 < max ((min t u64_max + 99) / 100) 1)
      × (max ((min t u64_max + 99) / 100) 1 ≤ n)
      × (t ≤ 100 * max ((min t u64_max + 99) / 100) 1)
ceiling_bounds n t pos exact h = (omega arith, omega arith, omega arith)

below_ceiling :
    (t below : ℕ)
    → t ≤ u64_max
    → below < max ((min t u64_max + 99) / 100) 1
    → (100 * below < t) ⊎ (below ≡ 0)
below_ceiling t below exact h = ground arith

target_count_lem :
    (n percent : ℕ)
    → 0 < n
    → n * percent ≤ u64_max
    → percent ≤ 100
    → (0 < target_count n percent)
      × (target_count n percent ≤ n)
      × (n * percent ≤ 100 * target_count n percent)
unfolding target_count
target_count_lem n percent some_sample exact h =
    ceiling_bounds n (n * percent) some_sample exact (mul-le-mul_left n h)

below-target_count :
    (n percent below : ℕ)
    → n * percent ≤ u64_max
    → below < target_count n percent
    → (100 * below < n * percent) ⊎ (below ≡ 0)
unfolding target_count
below-target_count n percent below exact h = below_ceiling (n * percent) below exact h

-- Where the sample count is a u64 and its product with a percent of 100 or less does not saturate,
-- the percentile of a histogram that is not empty is the reported bound of one of its buckets: the
-- buckets up to this one hold that percent of all samples or more, and those before it hold less,
-- or nothing.
pub percentile_of_buckets_lem :
    (counts : List ℕ) (percent : ℕ) (buckets : List ℕ)
    → 0 < samples counts
    → samples counts * percent ≤ u64_max
    → samples counts < u64_mod
    → percent ≤ 100
    → (i : ℕ) × (percentile_of_buckets counts percent buckets ≡ some (bucket_upper_bound i buckets))
      × (samples counts * percent ≤ 100 * samples_below (i + 1) counts)
      × ((100 * samples_below i counts < samples counts * percent) ⊎ (samples_below i counts ≡ 0))
unfolding percentile_of_buckets target_count upper_bound_of
percentile_of_buckets_lem counts percent buckets some_sample exact small h =
    let e = sum_u64_lem counts small in
    let (pos, le, most) = target_count_lem (samples counts) percent some_sample exact h in
    let (i, q, up, low) =
      first_reaching_lem (target_count (samples counts) percent) 0 0 counts (omega arith) pos
        (omega arith) in
    let least =
      below-target_count (samples counts) percent (samples_below i counts) exact (omega arith) in
    (i, ground arith, omega arith, least)

position_from_lem :
    (i elapsed_us : ℕ) (buckets : List ℕ) (j : ℕ)
    → j < length buckets
    → elapsed_us ≤ get_or buckets j 0
    → (k : ℕ) × (position_from i elapsed_us buckets ≡ some (i + k))
      × (k ≤ j)
      × (elapsed_us ≤ get_or buckets k 0)
unfolding position_from
position_from_lem i elapsed_us [] j h e = absurd (omega arith)
position_from_lem i elapsed_us (b ∷ bs) ℕ.zero h e = (0, ground arith, omega arith, ground arith)
position_from_lem i elapsed_us (b ∷ bs) (ℕ.suc j) h e = elim (dec_le elapsed_us b) [
  | yes p ↦ (0, ground arith, omega arith, ground arith)
  | no p ↦
      let (k, q, le, bound) =
        position_from_lem (i + 1) elapsed_us bs j (omega arith) (ground arith) in
      (k + 1, ground arith, omega arith, ground arith)
]

-- A sample goes to the first bucket whose bound it does not exceed: given any bucket that could
-- hold it, its own can hold it and does not come later.
pub bucket_index-least :
    (buckets : List ℕ) (elapsed_us j : ℕ)
    → j < length buckets
    → elapsed_us ≤ get_or buckets j 0
    → (elapsed_us ≤ get_or buckets (bucket_index elapsed_us buckets) 0)
      × (bucket_index elapsed_us buckets ≤ j)
unfolding bucket_index unwrap_or
bucket_index-least buckets elapsed_us j h e =
    let (k, q, le, bound) = position_from_lem 0 elapsed_us buckets j h e in
    (ground arith, ground arith)

increment_lem :
    (ns : List ℕ) (i : ℕ)
    → i < length ns
    → samples ns < u64_max
    → (samples (increment ns i) ≡ samples ns + 1)
      × (get_or (increment ns i) i 0 ≡ get_or ns i 0 + 1)
unfolding increment
increment_lem [] i h small = absurd (omega arith)
increment_lem (n ∷ ns) ℕ.zero h small = (ground arith, ground arith)
increment_lem (n ∷ ns) (ℕ.suc i) h small =
    let (p, q) = increment_lem ns i (omega arith) (omega arith) in (omega arith, q)

-- Where a bucket can hold the sample, and the sample count is below 2^64 - 1, recording adds one
-- to the bucket of the sample and one to the number of all samples.
pub record_histogram-adds :
    (histogram buckets : List ℕ) (elapsed_us j : ℕ)
    → length histogram ≡ length buckets
    → j < length buckets
    → elapsed_us ≤ get_or buckets j 0
    → samples histogram < u64_max
    → (samples (record_histogram histogram elapsed_us buckets) ≡ samples histogram + 1)
      × (get_or (record_histogram histogram elapsed_us buckets) (bucket_index elapsed_us buckets) 0
          ≡ get_or histogram (bucket_index elapsed_us buckets) 0 + 1)
unfolding record_histogram
record_histogram-adds histogram buckets elapsed_us j same h e small =
    let (bound, le) = bucket_index-least buckets elapsed_us j h e in
    increment_lem histogram (bucket_index elapsed_us buckets) (omega arith) small
