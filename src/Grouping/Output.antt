-- ===== src/Grouping/Output.antt =====
-- traceql/engine_metrics.go: the series that the aggregators of spans give, and the choice between them.
use traceql_syntax.Base.{
  ℕ, ◌+◌, List, [], ◌∷◌, ◌++◌, map, Option, none, some, Text, length, get_elem?, ltb, ◌==◌,
  if◌then◌else◌,
}
use traceql_syntax.StaticType.{type_nil, type_eq}
use traceql_syntax.Static.{Static, static_nil, static_string, type_of}
use traceql_syntax.Attribute.{Attribute}
use traceql_syntax.Series.{Labels, SeriesMapKey, SeriesSet, labels_map_key, put}
use traceql_syntax.Grouping.{
  Config, RangeAggregator, SeriesMap, GroupingAggregator, lookups_for, new_grouping_aggregator,
  observe,
}

-- The labels of the attributes that a value is not nil for.
unfoldable pub named_labels : (Attribute → Text) → List Attribute → List Static → Option Labels
unfolding type_of type_eq
named_labels print [] vals = some []
named_labels print (a ∷ others) [] = none
named_labels print (a ∷ others) (v ∷ vals) = elim (named_labels print others vals) [
  | none ↦ none
  | some rest ↦
      if type_eq (type_of v) type_nil
      then some rest
      else some (record { name = print a; value = v } ∷ rest)
]

-- If there is none, the first attribute has nil.
unfoldable pub force_one : (Attribute → Text) → List Attribute → Labels → Option Labels
force_one print by (l ∷ ls) = some (l ∷ ls)
force_one print [] [] = none
force_one print (a ∷ others) [] = some (record { name = print a; value = static_nil } ∷ [])

module _ {S R : Type 0} (print : Attribute → Text) (sum64 : List ℕ → ℕ) (metric_name : Text) where
  -- The label of the callback.
  unfoldable pub with_func_label : Config S R → List Static → Labels → Option Labels
  with_func_label c vals labels = elim c.by_func [
    | none ↦ some labels
    | some f ↦ elim (get_elem? vals (length c.by)) [
      | none ↦ none
      | some v ↦ some (labels ++ (record { name = c.by_func_label; value = v } ∷ []))
    ]
  ]

  unfoldable pub labels_for : Config S R → List Static → Option (Labels × SeriesMapKey)
  unfolding named_labels with_func_label force_one labels_map_key
  labels_for c vals = elim (named_labels print c.by vals) [
    | none ↦ none
    | some named ↦ elim (with_func_label c vals named) [
      | none ↦ none
      | some labels ↦ elim (force_one print c.by labels) [
        | none ↦ none
        | some all ↦ elim (labels_map_key sum64 metric_name all) [
          | none ↦ none
          | some key ↦ some (all, key)
        ]
      ]
    ]
  ]

  -- The loop over the series, with the result so far.
  unfoldable pub series_loop : Config S R → List R → SeriesMap → SeriesSet → Option SeriesSet
  unfolding labels_for put
  series_loop c store [] ss = some ss
  series_loop c store ((f, s) ∷ rest) ss = elim (labels_for c s.vals) [
    | none ↦ none
    | some (labels, key) ↦ elim (get_elem? store s.agg) [
      | none ↦ none
      | some r ↦ series_loop c store rest (
          put key
            (record {
              labels = labels;
              values = c.inner_agg.samples r;
              exemplars = c.inner_agg.exemplars r;
            })
            ss)
    ]
  ]

  unfoldable pub grouping_series : Config S R → GroupingAggregator R → Option SeriesSet
  unfolding series_loop
  grouping_series c g = series_loop c g.store g.series []

  unfoldable pub ungrouped_series : Text → RangeAggregator S R → R → Option SeriesSet
  unfolding labels_map_key put
  ungrouped_series name inner r =
      let labels : Labels = record { name = metric_name; value = static_string name } ∷ [] in
      elim (labels_map_key sum64 metric_name labels) [
        | none ↦ none
        | some key ↦ some (
            put key
              (record { labels = labels; values = inner.samples r; exemplars = inner.exemplars r })
              [])
      ]

-- An aggregator of spans with its name, or with its groups.
pub data SpanAggregator (S R : Type 0) : Type 0 where
  ungrouped : Text → RangeAggregator S R → R → SpanAggregator S R
  grouping : Config S R → GroupingAggregator R → SpanAggregator S R

-- `none` is the panic of too many values.
unfoldable pub new_span_aggregator :
    {S R : Type 0}
    → Text
    → RangeAggregator S R
    → List Attribute
    → Option (S → Option Static)
    → Text
    → Option (SpanAggregator S R)
unfolding lookups_for new_grouping_aggregator
new_span_aggregator name inner by by_func by_func_label =
    let n = length by + elim by_func [ none ↦ 0 | some f ↦ 1 ] in
    if n == 0
    then some (ungrouped name inner inner.create)
    else if ltb 5 n
    then none
    else some (
        grouping
          (record {
            by = by;
            by_lookups = map lookups_for by;
            by_func = by_func;
            by_func_label = by_func_label;
            inner_agg = inner;
          })
          (new_grouping_aggregator n))

module _ {S R : Type 0} (attribute_for : S → Attribute → Option Static) (sum64 : List ℕ → ℕ) where
  unfoldable pub observe_span : S → SpanAggregator S R → Option (SpanAggregator S R)
  unfolding observe
  observe_span s (ungrouped name inner r) = some (ungrouped name inner (inner.observe s r))
  observe_span s (grouping c g) = elim (observe attribute_for sum64 c s g) [
    | none ↦ none
    | some g' ↦ some (grouping c g')
  ]

unfoldable pub span_length : {S R : Type 0} → SpanAggregator S R → ℕ
span_length (ungrouped name inner r) = 0
span_length (grouping c g) = length g.series
