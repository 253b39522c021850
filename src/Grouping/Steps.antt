-- ===== src/Grouping/Steps.antt =====
-- traceql/engine_metrics.go: the aggregators of the spans of a series, at each interval of a range or at one
-- instant. An interval out of the slice, or one that is the pattern of an int below 0, is a panic,
-- `none`; a slice has fewer than 2 ^ 63 elements.
pub mod Observed
use traceql_syntax.Base.{
  ℕ, zero, suc, Bool, false, not, ◌||◌, List, [], ◌∷◌, ◌++◌, map, Option, none, some, get_elem?,
  set, ltb, is_negative, if◌then◌else◌,
}
use traceql_syntax.Runtime.{Runtime}
use traceql_syntax.Range.{align_start, align_end}
use traceql_syntax.Range.Intervals.{IntervalMapper, new_interval_mapper, interval, count}
use traceql_syntax.Buckets.{LimitedBucketSet, new_bucket_set, len, test_total, add_and_test}
use traceql_syntax.Series.{Labels, Exemplar}

pub record VectorAggregator (S V : Type 0) : Type 0 where
  pub create : V
  pub vector_observe : S → V → V
  pub sample : V → ℕ

pub record CountOverTimeAggregator : Type 0 where
  pub span_count : ℕ
  pub rate_mult : ℕ

unfoldable pub count_over_time :
    {S : Type 0} → Runtime → ℕ → VectorAggregator S CountOverTimeAggregator
count_over_time rt mult = record {
  create = record { span_count = rt.of_int 0; rate_mult = mult };
  vector_observe = λ s c. record c { span_count = rt.f_add c.span_count (rt.of_int 1) };
  sample = λ c. rt.f_mul c.span_count c.rate_mult;
}

unfoldable pub min_over_time : Runtime → ℕ → ℕ → ℕ
min_over_time rt curr n = if not (rt.f_eq curr curr) || rt.f_lt n curr then n else curr

unfoldable pub max_over_time : Runtime → ℕ → ℕ → ℕ
max_over_time rt curr n = if not (rt.f_eq curr curr) || rt.f_lt curr n then n else curr

-- `abs` is math.Abs, and `is_inf` math.IsInf for both signs.
module _ (rt : Runtime) (abs : ℕ → ℕ) (is_inf : ℕ → Bool) where
  unfoldable pub kahan_sum_inc : ℕ → ℕ → ℕ → ℕ × ℕ
  kahan_sum_inc inc sum c =
      let t = rt.f_add sum inc in
      (
        t,
        if is_inf t
            then rt.of_int 0
            else if rt.f_le (abs inc) (abs sum)
            then rt.f_add c (rt.f_add (rt.f_sub sum t) inc)
            else rt.f_add c (rt.f_add (rt.f_sub inc t) sum),
      )

  -- The sum and its compensation.
  unfoldable pub sum_over_time : ℕ × ℕ → ℕ → ℕ × ℕ
  unfolding kahan_sum_inc
  sum_over_time (sum, comp) inc =
      if not (rt.f_eq sum sum)
      then (inc, comp)
      else kahan_sum_inc (rt.f_sub inc comp) sum (rt.of_int 0)

-- A state with the value, which the minimum and the maximum have no more in.
unfoldable pub over_time :
    {S C : Type 0} → ℕ → C → (S → ℕ) → (ℕ × C → ℕ → ℕ × C) → VectorAggregator S (ℕ × C)
over_time nan c get_span_att_value agg = record {
  create = (nan, c);
  vector_observe = λ s x. agg x (get_span_att_value s);
  sample = λ x. x.0;
}

pub record StepAggregator (V : Type 0) : Type 0 where
  pub interval_mapper : IntervalMapper
  pub vectors : List V
  pub exemplars : List Exemplar
  pub exemplar_buckets : LimitedBucketSet

abbrev pub replicate : {V : Type 0} → ℕ → V → List V
replicate zero v = []
replicate (suc n) v = v ∷ replicate n v

unfoldable pub new_exemplar_bucket_set : ℕ → ℕ → ℕ → ℕ → LimitedBucketSet
unfolding new_bucket_set align_start align_end
new_exemplar_bucket_set exemplars start end step =
    new_bucket_set exemplars (align_start start step false) (align_end end step false)

module _ {S V : Type 0} (inner : VectorAggregator S V) (start_time : S → ℕ) where
  -- `none` is the division by a step of 0, or a slice of a length below 0.
  unfoldable pub new_step_aggregator : ℕ → ℕ → ℕ → ℕ → Option (StepAggregator V)
  unfolding new_interval_mapper count new_exemplar_bucket_set
  new_step_aggregator start end step exemplars = elim (new_interval_mapper start end step false) [
    | none ↦ none
    | some m ↦
        if is_negative (count m)
        then none
        else some (record {
          interval_mapper = m;
          vectors = replicate (count m) inner.create;
          exemplars = [];
          exemplar_buckets = new_exemplar_bucket_set exemplars start end step;
        })
  ]

  unfoldable pub step_observe : S → StepAggregator V → Option (StepAggregator V)
  unfolding interval
  step_observe span s = elim (interval s.interval_mapper (start_time span)) [
    | none ↦ some s
    | some i ↦ elim (get_elem? s.vectors i) [
      | none ↦ none
      | some v ↦ some (record s { vectors = set s.vectors i (inner.vector_observe span v) })
    ]
  ]

  unfoldable pub step_samples : StepAggregator V → List ℕ
  step_samples s = map inner.sample s.vectors

  unfoldable pub instant_observe : ℕ → ℕ → S → V → V
  instant_observe start end span v =
      if ltb (start_time span) start || ltb end (start_time span)
      then v
      else inner.vector_observe span v

  unfoldable pub instant_samples : V → List ℕ
  instant_samples v = inner.sample v ∷ []

-- An exemplar that there is room for, with the total of the buckets.
unfoldable pub step_observe_exemplar :
    {V : Type 0} → ℕ → ℕ → Labels → StepAggregator V → Option (StepAggregator V)
unfolding len test_total add_and_test
step_observe_exemplar value ts lbls s = elim (len s.exemplar_buckets) [
  | none ↦ none
  | some total ↦
      if test_total s.exemplar_buckets total
      then some s
      else elim (add_and_test s.exemplar_buckets ts) [
        | none ↦ none
        | some (b, full) ↦
            if full
            then some (record s { exemplar_buckets = b })
            else some (record s {
              exemplar_buckets = b;
              exemplars =
                  s.exemplars ++ (record { labels = lbls; value = value; timestamp_ms = ts } ∷ []);
            })
      ]
]
