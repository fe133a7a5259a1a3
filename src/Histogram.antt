-- ===== src/Histogram.antt =====
-- Latency histograms: src/perf/histogram.rs. A histogram is the list of its bucket counts; the
-- bounds are the eight of a ladder. u64 arithmetic wraps, but for `saturating_mul`.
pub mod Percentile
mod Tests
use enclave.Common.{
  ℕ, ◌+◌, ◌-◌, ◌*◌, ◌/◌, ◌%◌, ◌^◌, min, max, Bool, List, [], ◌∷◌, Option, none, some, leb, ◌==◌,
  if◌then◌else◌, get_elem?, length, set,
}

abbrev pub u64_mod : ℕ
u64_mod = 2 ^ 64

abbrev pub u64_max : ℕ
u64_max = 2 ^ 64 - 1

abbrev pub latency_buckets_us : List ℕ
latency_buckets_us = 100 ∷ 500 ∷ 1000 ∷ 5000 ∷ 10_000 ∷ 50_000 ∷ 250_000 ∷ u64_max ∷ []

abbrev pub phase_buckets_us : List ℕ
phase_buckets_us = 1000 ∷ 5000 ∷ 10_000 ∷ 25_000 ∷ 50_000 ∷ 100_000 ∷ 250_000 ∷ u64_max ∷ []

-- `position` with the index of the head of the list.
position_from : ℕ → ℕ → List ℕ → Option ℕ
position_from i elapsed_us [] = none
position_from i elapsed_us (limit ∷ limits) =
    if leb elapsed_us limit then some i else position_from (i + 1) elapsed_us limits

unwrap_or : ℕ → Option ℕ → ℕ
unwrap_or d none = d
unwrap_or d (some i) = i

pub bucket_index : ℕ → List ℕ → ℕ
unfolding position_from unwrap_or
bucket_index elapsed_us buckets =
    unwrap_or (length buckets - 1) (position_from 0 elapsed_us buckets)

-- `fetch_add(1)` on one bucket.
increment : List ℕ → ℕ → List ℕ
increment [] i = []
increment (n ∷ ns) ℕ.zero = (n + 1) % u64_mod ∷ ns
increment (n ∷ ns) (ℕ.suc i) = n ∷ increment ns i

pub record_histogram : List ℕ → ℕ → List ℕ → List ℕ
unfolding bucket_index increment
record_histogram histogram elapsed_us buckets =
    increment histogram (bucket_index elapsed_us buckets)

abbrev get_or : List ℕ → ℕ → ℕ → ℕ
get_or [] i d = d
get_or (x ∷ xs) ℕ.zero d = x
get_or (x ∷ xs) (ℕ.suc i) d = get_or xs i d

-- The top bucket is reported by the bound below it.
bound_or_below : List ℕ → Option ℕ → ℕ
bound_or_below buckets none = get_or buckets (length buckets - 2) 0
bound_or_below buckets (some limit) =
    if limit == u64_max then get_or buckets (length buckets - 2) 0 else limit

pub bucket_upper_bound : ℕ → List ℕ → ℕ
unfolding bound_or_below
bucket_upper_bound index buckets = bound_or_below buckets (get_elem? buckets index)

-- `iter().sum::<u64>()`.
pub sum_u64 : List ℕ → ℕ
sum_u64 [] = 0
sum_u64 (n ∷ ns) = (n + sum_u64 ns) % u64_mod

-- `saturating_mul(percent).div_ceil(100).max(1)`.
pub target_count : ℕ → ℕ → ℕ
target_count total percent = max ((min (total * percent) u64_max + 99) / 100) 1

-- The loop over the counts, with the index and `cumulative`.
first_reaching : ℕ → ℕ → ℕ → List ℕ → Option ℕ
first_reaching target index cumulative [] = none
first_reaching target index cumulative (count ∷ counts) =
    let reached = (cumulative + count) % u64_mod in
    let rest = first_reaching target (index + 1) reached counts in
    if leb target reached then some index else rest

upper_bound_of : List ℕ → Option ℕ → Option ℕ
unfolding bucket_upper_bound
upper_bound_of buckets none = none
upper_bound_of buckets (some index) = some (bucket_upper_bound index buckets)

pub percentile_of_buckets : List ℕ → ℕ → List ℕ → Option ℕ
unfolding sum_u64 target_count first_reaching upper_bound_of
percentile_of_buckets counts percent buckets =
    let total = sum_u64 counts in
    if total == 0
    then none
    else upper_bound_of buckets (first_reaching (target_count total percent) 0 0 counts)
