-- ===== src/Tests/Groups.antt =====
-- The theorems on the first stage of metrics queries at inputs that meet their hypotheses, and runs.
use traceql_syntax.Base.{
  ℕ, ◌+◌, ◌<◌, get_elem?, arith, List, [], ◌∷◌, Option, none, some, codes, ◌≡◌, refl,
}
use traceql_syntax.Static.{Static, static_int}
use traceql_syntax.Attribute.{Attribute, new_attribute}
use traceql_syntax.Pipeline.Group.{map_key}
use traceql_syntax.Series.{Labels}
use traceql_syntax.Grouping.{
  Config, RangeAggregator, FastStatic, GroupingAggregator, lookups_for, agg_num,
  new_grouping_aggregator, observe, observe_exemplar,
}
use traceql_syntax.Range.Intervals.{query_range, query_range_mapper, count}
use traceql_syntax.Grouping.Steps.{
  VectorAggregator, StepAggregator, new_step_aggregator, step_observe, step_samples,
}
use traceql_syntax.Grouping.Steps.Observed.{
  step_observe_all, vector_after, step_samples-vector_after,
}
use traceql_syntax.Grouping.Stored.{state_of}
use traceql_syntax.Grouping.Grouped.{
  Call, span_observed, exemplar_observed, run_calls, state_after, run_calls-state_after,
}

-- A span is the number of the attribute it has.
abbrev attribute_of : ℕ → Attribute → Option Static
attribute_of s a = some (static_int s)

abbrev no_attributes : ℕ → Labels
no_attributes s = []

abbrev sum_of : List ℕ → ℕ
sum_of bytes = 0

-- The aggregator counts the spans, and its exemplars.
abbrev counting : RangeAggregator ℕ (ℕ × ℕ)
counting = record {
  create = (0, 0);
  observe = λ s x. (x.0 + 1, x.1);
  observe_exemplar = λ v ts ls x. (x.0, x.1 + 1);
  samples = λ x. x.0 ∷ [];
  exemplars = λ x. [];
}

abbrev by_one : Config ℕ (ℕ × ℕ)
by_one = record {
  by = new_attribute (codes "foo") ∷ [];
  by_lookups = lookups_for (new_attribute (codes "foo")) ∷ [];
  by_func = none;
  by_func_label = [];
  inner_agg = counting;
}

abbrev calls : List (Call ℕ)
calls =
    span_observed 7
    ∷ span_observed 7
    ∷ span_observed 8
    ∷ exemplar_observed 7 5 6
    ∷ span_observed 8
    ∷ span_observed 7
    ∷ []

run_calls-state_after_example :
    (g : GroupingAggregator (ℕ × ℕ)) × (run_calls attribute_of sum_of no_attributes by_one calls
        (new_grouping_aggregator (agg_num by_one))
      ≡ some g)
    × ((k : FastStatic)
        → state_of k g ≡ state_after attribute_of sum_of no_attributes by_one calls k none)
run_calls-state_after_example = run_calls-state_after attribute_of sum_of no_attributes by_one calls

abbrev state_of_7 : Option ((ℕ × ℕ) × List Static)
state_of_7 =
    elim (run_calls attribute_of sum_of no_attributes by_one calls
      (new_grouping_aggregator (agg_num by_one))) [
        | none ↦ none
        | some g ↦ state_of (map_key sum_of (static_int 7) ∷ []) g
      ]

-- Three spans of 7 and an exemplar.
three_of_7 : state_of_7 ≡ some ((3, 1), static_int 7 ∷ [])
unfolding observe observe_exemplar new_grouping_aggregator state_of map_key lookups_for
    new_attribute
three_of_7 = refl

abbrev counted_spans : VectorAggregator ℕ ℕ
counted_spans = record { create = 0; vector_observe = λ t n. n + 1; sample = λ n. n }

abbrev start_of : ℕ → ℕ
start_of t = t

abbrev four_times : List ℕ
four_times = 25 ∷ 12 ∷ 30 ∷ 99 ∷ []

step_samples-vector_after_example :
    (s t : StepAggregator ℕ) × (new_step_aggregator counted_spans start_of 12 37 10 4 ≡ some s)
    × (step_observe_all counted_spans start_of four_times s ≡ some t)
    × ((i : ℕ)
        → i < count (query_range (query_range_mapper 12 37 10))
        → get_elem? (step_samples counted_spans start_of t) i
          ≡ some (
              counted_spans.sample (
                vector_after counted_spans start_of
                  (query_range (query_range_mapper 12 37 10))
                  i
                  four_times
                  counted_spans.create)))
unfolding query_range_mapper count
step_samples-vector_after_example =
    step_samples-vector_after counted_spans start_of 12 37 10 4 four_times (omega arith)
      (omega arith) (omega arith) refl

-- The intervals end at 20, 30 and 40; one span is out of the range.
samples_of_times :
    (elim (new_step_aggregator counted_spans start_of 12 37 10 4) as (λ o. Option (List ℕ)) [
      | none ↦ none
      | some s ↦
          elim (step_observe_all counted_spans start_of four_times s) as (λ o. Option (List ℕ)) [
            | none ↦ none
            | some t ↦ some (step_samples counted_spans start_of t)
          ]
    ])
    ≡ some (1 ∷ 2 ∷ 0 ∷ [])
unfolding new_step_aggregator step_observe step_samples
samples_of_times = refl
