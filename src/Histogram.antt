-- ===== src/Histogram.antt =====
-- traceql/engine_metrics.go: histograms with one bucket for each power of two, and their quantiles.
-- Counts are ints, with wrap-around. What Log2Bucketize converts to a float64 is given as the
-- uint64; the interpolation between buckets, by math.Log2 and math.Pow, is left out.
pub mod Powers
pub mod Quantiles
use traceql_syntax.Base.{
  ℕ, zero, suc, ◌-◌, ◌/◌, ◌%◌, ◌^◌, Bool, true, false, not, ◌&&◌, ◌||◌, List, [], ◌∷◌, ◌++◌, Option,
  none, some, get_elem?, ltb, leb, ◌==◌, word_mod, add64, slt64, if◌then◌else◌,
}
use traceql_syntax.Runtime.{Runtime}

pub record HistogramBucket : Type 0 where
  pub max : ℕ
  pub count : ℕ

-- Histogram.Record on the buckets.
unfoldable pub record_count : Runtime → ℕ → ℕ → List HistogramBucket → List HistogramBucket
unfolding add64
record_count rt bucket count [] = record { max = bucket; count = count } ∷ []
record_count rt bucket count (b ∷ bs) =
    let rest = record_count rt bucket count bs in
    if rt.f_eq b.max bucket then record b { count = add64 b.count count } ∷ bs else b ∷ rest

-- 64 - bits.LeadingZeros64(n): how often n can be halved, with fuel for 64 halvings.
unfoldable pub bit_length : ℕ → ℕ → ℕ
bit_length zero n = 0
bit_length (suc fuel) n = let rest = bit_length fuel (n / 2) in if n == 0 then 0 else suc rest

-- `none` is -1. A shift by 64 leaves nothing.
unfoldable pub log2_bucketize : ℕ → Option ℕ
unfolding bit_length
log2_bucketize v = if ltb v 2 then none else some (2 ^ bit_length 64 (v - 1) % word_mod)

-- What the loop over the buckets ends with: all samples are consumed with a bucket, or the samples
-- consumed before the bucket that they end in.
pub data Found : Type 0 where
  exact : ℕ → Found
  within : ℕ → ℕ → Found

-- The loop of Log2QuantileWithBucket, whose sums and comparisons are those of ints.
unfoldable pub find_bucket : ℕ → List HistogramBucket → ℕ → ℕ → ℕ → Found
unfolding add64
find_bucket max_samples [] i total bucket = within total bucket
find_bucket max_samples (b ∷ bs) i total bucket =
    let rest = find_bucket max_samples bs (suc i) (add64 total b.count) i in
    if slt64 max_samples (add64 total b.count)
    then within total i
    else if add64 total b.count == max_samples
    then exact i
    else rest

-- totalCount, from what it is so far.
unfoldable pub total_count : ℕ → List HistogramBucket → ℕ
unfolding add64
total_count total [] = total
total_count total (b ∷ bs) = total_count (add64 total b.count) bs
