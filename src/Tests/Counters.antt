-- ===== src/Tests/Counters.antt =====
-- The theorems on samplers, trace ids and histograms at inputs that meet their hypotheses.
use traceql_syntax.Base.{
  ℕ, ◌+◌, ◌*◌, ◌^◌, ◌/◌, ◌%◌, ◌≤◌, ◌<◌, true, List, [], ◌∷◌, none, some, codes, ok, sign_bit, ◌==◌,
  ◌≡◌, refl, arith,
}
use traceql_syntax.Sampler.{
  ProbabilisticSampler, new_probabilistic_sampler, sample, new_adaptive_sampler,
}
use traceql_syntax.Sampler.Counts.{calls, sample_lem}
use traceql_syntax.Sampler.Adaptive.{
  Call, call_sample, call_measured, call_expect, entries, matches, announced, apply_calls,
  HasCounted, apply_calls-HasCounted,
}
use traceql_syntax.TraceId.{
  trace_id_to_hex_string, hex_string_to_trace_id, pad_trace_id_to_16_bytes,
  equal_hex_string_trace_ids,
}
use traceql_syntax.TraceId.RoundTrip.{hex_string_to_trace_id-to_hex_string}
use traceql_syntax.Histogram.{HistogramBucket, log2_bucketize, find_bucket, total_count, within}
use traceql_syntax.Histogram.Powers.{log2_bucketize-least}
use traceql_syntax.Histogram.Quantiles.{IsFound, samples, find_bucket-IsFound}
use traceql_syntax.Tests.{toy}

sample_lem_example :
    (s s' : ProbabilisticSampler) × (calls 5 (new_probabilistic_sampler 3) ≡ some s)
    × (sample s ≡ some (s', 5 % 3 == 0))
    × (s'.sampled ≡ 5 / 3 + 1)
    × (s'.sampled + s'.skipped ≡ 5 + 1)
sample_lem_example = sample_lem 5 3 (omega arith) (omega arith) (omega arith)

abbrev some_calls : List Call
some_calls = call_expect 10 ∷ call_sample ∷ call_measured ∷ call_sample ∷ call_sample ∷ []

apply_calls-HasCounted_example :
    HasCounted
      (apply_calls toy (λ p. p * 10) some_calls new_adaptive_sampler)
      (entries some_calls)
      (matches some_calls)
      (announced some_calls)
apply_calls-HasCounted_example = apply_calls-HasCounted toy (λ p. p * 10) some_calls

abbrev short_id : List ℕ
short_id = 0 ∷ 10 ∷ 255 ∷ []

printed_id : trace_id_to_hex_string short_id ≡ codes "aff"
unfolding trace_id_to_hex_string
printed_id = refl

hex_string_to_trace_id-to_hex_string_example :
    (hex_string_to_trace_id (trace_id_to_hex_string short_id)
      ≡ ok (pad_trace_id_to_16_bytes short_id))
    × (equal_hex_string_trace_ids
          (trace_id_to_hex_string short_id)
          (trace_id_to_hex_string (pad_trace_id_to_16_bytes short_id))
        ≡ ok true)
hex_string_to_trace_id-to_hex_string_example =
    hex_string_to_trace_id-to_hex_string short_id (omega arith, (omega arith, (omega arith, tt)))
      (omega arith)

log2_bucketize-least_example :
    (2 ≤ 5
      → 5 ≤ sign_bit
      → (k : ℕ) × (log2_bucketize 5 ≡ some (2 ^ k)) × (5 ≤ 2 ^ k) × (2 ^ k < 2 * 5))
    × (sign_bit < 5 → log2_bucketize 5 ≡ some 0)
    × (5 < 2 → log2_bucketize 5 ≡ none)
log2_bucketize-least_example = log2_bucketize-least 5 (omega arith)

bucket_of_5 : log2_bucketize 5 ≡ some 8
unfolding log2_bucketize
bucket_of_5 = refl

abbrev buckets : List HistogramBucket
buckets = record { max = 2; count = 3 } ∷ record { max = 4; count = 5 } ∷ []

find_bucket-IsFound_example :
    (total_count 0 buckets ≡ samples buckets) × IsFound 4 buckets 0 0 (find_bucket 4 buckets 0 0 0)
unfolding samples total_count
find_bucket-IsFound_example =
    find_bucket-IsFound 4 buckets (omega arith) (omega arith) (omega arith)

found_bucket : find_bucket 4 buckets 0 0 0 ≡ within 3 1
unfolding find_bucket
found_bucket = refl
