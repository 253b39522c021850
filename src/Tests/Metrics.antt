-- ===== src/Tests/Metrics.antt =====
-- The theorems on series of metrics at inputs that meet their hypotheses, and runs of the code.
use traceql_syntax.Base.{
  ◌⊎◌, ℕ, Bool, true, not, ◌&&◌, List, [], ◌∷◌, any, none, some, Text, codes, ltb, ◌==◌,
  list_compare, if◌then◌else◌, ◌≡◌, refl, arith,
}
use traceql_syntax.Runtime.{Runtime, IsFloatOrder}
use traceql_syntax.StaticType.{type_string}
use traceql_syntax.Operator.{op_add, op_greater}
use traceql_syntax.Series.{
  TimeSeries, SeriesMapKey, SeriesSet, no_label, no_labels_series_map_key, find,
}
use traceql_syntax.Series.Maps.{HasUniqueKeys, IsWellSet}
use traceql_syntax.Series.Top.{
  process_top_k, process_bottom_k, data_point_less_than, data_point_greater_than, is_nan,
}
use traceql_syntax.Series.Top.Kept.{cell}
use traceql_syntax.Series.Top.Selected.{Selects, process_k-Selects}
use traceql_syntax.Series.Math.{apply_binary_op, apply_arithmetic_op}
use traceql_syntax.Series.Math.Sides.{IsSide, HasNoSide, IsKey, IsNoKey}
use traceql_syntax.Series.Math.Matched.{PointwiseOf, apply_binary_op_lem}
use traceql_syntax.Series.Stages.{
  MetricsFilter, Stage, top_k_bottom_k, metrics_filter, chained, math, then_stage, end_of_chain,
  leaf, node, no_filter, with_filter, op_top_k, compare_value, stays, process_filter, process,
  validate_stage,
}
use traceql_syntax.Series.Stages.Filtered.{process_filter_lem}
use traceql_syntax.Series.Stages.Total.{valid-total}
use traceql_syntax.Tests.{toy}

-- Numbers above 0, with 0 as NaN.
abbrev is_number : ℕ → ℕ → Bool
is_number a b = not (a == 0) && not (b == 0)

abbrev numbers : Runtime
numbers = record toy {
  f_eq = λ a b. is_number a b && a == b;
  f_lt = λ a b. is_number a b && ltb a b;
}

numbers-IsFloatOrder : IsFloatOrder numbers
numbers-IsFloatOrder = record {
  nan_ne = refl;
  eq_sym = λ a b. ground arith;
  eq_trans = λ a b c h k. ground arith;
  lt_asym = λ a b h. ground arith;
  lt_trans = λ a b c h k. ground arith;
  lt_ne = λ a b h. ground arith;
  lt_eq = λ a b c h k. ground arith;
  eq_lt = λ a b c h k. ground arith;
  total = λ a b h k. ground arith;
}

abbrev key_of : Text → SeriesMapKey
key_of v =
    record { name = codes "svc"; value = record { typ = type_string; code = 0; str = v } }
    ∷ no_label
    ∷ no_label
    ∷ no_label
    ∷ no_label
    ∷ []

abbrev series_of : List ℕ → TimeSeries
series_of vs = record { labels = []; values = vs; exemplars = [] }

abbrev services : SeriesSet
services =
    (key_of (codes "a"), series_of (5 ∷ 2 ∷ []))
    ∷ (key_of (codes "b"), series_of (5 ∷ 3 ∷ []))
    ∷ (key_of (codes "c"), series_of (7 ∷ 0 ∷ []))
    ∷ []

services-HasUniqueKeys : HasUniqueKeys services
unfolding find
services-HasUniqueKeys = (refl, (refl, (refl, tt)))

services-IsWellSet : IsWellSet services
services-IsWellSet = record { unique = services-HasUniqueKeys; keys = (refl, (refl, (refl, tt))) }

process_k-Selects_example :
    ((r : SeriesSet) × (process_top_k numbers services 2 2 ≡ some r)
      × Selects numbers (data_point_less_than numbers) services 2 2 r)
    × ((r : SeriesSet) × (process_bottom_k numbers services 2 2 ≡ some r)
        × Selects numbers (data_point_greater_than numbers) services 2 2 r)
process_k-Selects_example =
    process_k-Selects numbers services 2 2 numbers-IsFloatOrder services-HasUniqueKeys (omega arith)

-- Of equal values topk takes the one of the earlier text, and bottomk that of the later.
top_1 :
    process_top_k numbers services 2 1
    ≡ some (
        (key_of (codes "c"), series_of (7 ∷ 0 ∷ []))
        ∷ (key_of (codes "b"), series_of (0 ∷ 3 ∷ []))
        ∷ [])
unfolding process_top_k list_compare
top_1 = refl

bottom_1 :
    process_bottom_k numbers services 2 1
    ≡ some (
        (key_of (codes "b"), series_of (5 ∷ 0 ∷ []))
        ∷ (key_of (codes "a"), series_of (0 ∷ 2 ∷ []))
        ∷ [])
unfolding process_bottom_k list_compare
bottom_1 = refl

abbrev more_than_2 : MetricsFilter
more_than_2 = record { op = op_greater; value = 2; sep = [] }

process_filter_lem_example :
    ((k : SeriesMapKey) (i : ℕ)
      → cell 0 k i (process_filter numbers more_than_2 services) ≡ (
          if not (is_nan numbers (cell 0 k i services))
            && compare_value numbers more_than_2 (cell 0 k i services)
          then cell 0 k i services
          else 0))
    × ((k : SeriesMapKey) (s : TimeSeries)
        → find k (process_filter numbers more_than_2 services) ≡ some s
        → any (stays numbers more_than_2) s.values ≡ true)
    × HasUniqueKeys (process_filter numbers more_than_2 services)
process_filter_lem_example =
    process_filter_lem numbers more_than_2 services numbers-IsFloatOrder services-HasUniqueKeys

abbrev constant : SeriesSet
constant = (no_labels_series_map_key, series_of (1 ∷ 1 ∷ [])) ∷ []

constant-HasUniqueKeys : HasUniqueKeys constant
unfolding find
constant-HasUniqueKeys = (refl, tt)

abbrev no_decimal : ℕ → Text
no_decimal n = []

apply_binary_op_lem_example :
    (r : SeriesSet) × (apply_binary_op numbers no_decimal
        (codes "__name__")
        9
        op_add
        services
        constant
      ≡ some r)
    × ((k : SeriesMapKey)
        → (IsNoKey services constant k → find k r ≡ none)
          × (HasNoSide services k ⊎ HasNoSide constant k → find k r ≡ none)
          × ((a b : TimeSeries)
              → IsKey services constant k
              → IsSide services k a
              → IsSide constant k b
              → (s : TimeSeries) × (find k r ≡ some s)
                × PointwiseOf (apply_arithmetic_op numbers 9 op_add) a.values b.values s.values))
apply_binary_op_lem_example =
    apply_binary_op_lem numbers no_decimal (codes "__name__") 9 op_add services constant
      services-HasUniqueKeys constant-HasUniqueKeys

-- The sum of a query with itself, of which the greatest at each time stays, above 2.
abbrev sum_of_two : Stage
sum_of_two = chained (
    then_stage
      (math (
        node op_add (leaf (codes "q") no_filter) (leaf (codes "q") no_filter) (
          with_filter
            (top_k_bottom_k (record { op = op_top_k; limit = 1; length = 2; sep = [] })))))
      (then_stage (metrics_filter more_than_2) end_of_chain))

valid-total_example :
    (r : SeriesSet) × (process numbers no_decimal (codes "__name__") 9 sum_of_two services ≡ some r)
    × IsWellSet r
unfolding validate_stage
valid-total_example =
    valid-total numbers no_decimal (codes "__name__") 9 sum_of_two services numbers-IsFloatOrder
      refl services-IsWellSet

sum_run :
    process numbers no_decimal (codes "__name__") 9 sum_of_two services
    ≡ some (
        (key_of (codes "c"), series_of (14 ∷ 0 ∷ []))
        ∷ (key_of (codes "b"), series_of (0 ∷ 6 ∷ []))
        ∷ [])
unfolding process list_compare
sum_run = refl
