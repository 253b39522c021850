-- ===== src/Series/Top.antt =====
-- traceql/series_heap.go and topk and bottomk of traceql/engine_metrics.go. A comparison's -1, 0 and 1
-- are `Ordering`. The heap is a list with the least value first (Series/Queue); keys are not repeated,
-- so no two values are equal in its order.
pub mod Ranked
pub mod Kept
pub mod Recorded
pub mod Selected
use traceql_syntax.Base.{
  is_lt, is_gt, ℕ, zero, suc, ◌+◌, Bool, true, false, not, List, [], ◌∷◌, Option, none, some,
  Ordering, compare, get_elem?, set, list_compare, if◌then◌else◌,
}
use traceql_syntax.Base.Orders.{flip, or_then, compare_all}
use traceql_syntax.Runtime.{Runtime}
use traceql_syntax.StaticType.{type_code}
use traceql_syntax.Series.{SeriesMapLabel, SeriesMapKey, TimeSeries, SeriesSet, find, put}
use traceql_syntax.Series.Queue.{offer_all}

pub record SeriesValue : Type 0 where
  pub key : SeriesMapKey
  pub value : ℕ

-- The comparison of a label, which goes back to front where texts differ.
abbrev pub compare_label : SeriesMapLabel → SeriesMapLabel → Ordering
compare_label a b = or_then (flip (list_compare a.value.str b.value.str)) (
    or_then (flip (list_compare a.name b.name)) (
      or_then (compare (type_code a.value.typ) (type_code b.value.typ))
        (compare a.value.code b.value.code)))

unfoldable pub compare_series_map_key : SeriesMapKey → SeriesMapKey → Ordering
unfolding compare_all
compare_series_map_key = compare_all compare_label

-- A series of NaNs of the length.
unfoldable pub all_nan : ℕ → ℕ → List ℕ
all_nan nan zero = []
all_nan nan (suc n) = nan ∷ all_nan nan n

-- input[key].Values[i], where `none` is a panic.
unfoldable pub value_of : SeriesMapKey → ℕ → SeriesSet → Option ℕ
unfolding find
value_of k i input = elim (find k input) [ none ↦ none | some s ↦ get_elem? s.values i ]

module _ (rt : Runtime) where
  abbrev pub is_nan : ℕ → Bool
  is_nan v = not (rt.f_eq v v)

  unfoldable pub data_point_greater_than : SeriesValue → SeriesValue → Bool
  unfolding compare_series_map_key
  data_point_greater_than a b =
      if rt.f_eq a.value b.value
      then is_gt (compare_series_map_key a.key b.key)
      else rt.f_lt b.value a.value

  unfoldable pub data_point_less_than : SeriesValue → SeriesValue → Bool
  unfolding compare_series_map_key
  data_point_less_than a b =
      if rt.f_eq a.value b.value
      then is_lt (compare_series_map_key a.key b.key)
      else rt.f_lt a.value b.value

  -- The values at a time that are not NaN, as the loop over the series meets them.
  unfoldable pub add_point : SeriesMapKey → Option ℕ → List SeriesValue → List SeriesValue
  add_point k none others = others
  add_point k (some v) others = if is_nan v then others else record { key = k; value = v } ∷ others

  unfoldable pub points : ℕ → SeriesSet → List SeriesValue
  unfolding add_point
  points i [] = []
  points i ((k, s) ∷ rest) = add_point k (get_elem? s.values i) (points i rest)

  -- The series in the result, or a new one.
  unfoldable pub init_series : SeriesMapKey → SeriesSet → ℕ → SeriesSet → TimeSeries
  unfolding find all_nan
  init_series k input len result = elim (find k result) [
    | some s ↦ s
    | none ↦ elim (find k input) [
      | some s ↦ record s { values = all_nan rt.nan len }
      | none ↦ record { labels = []; values = all_nan rt.nan len; exemplars = [] }
    ]
  ]

  -- The loop that empties the heap.
  unfoldable pub record_points : SeriesSet → ℕ → ℕ → List SeriesValue → SeriesSet → Option SeriesSet
  unfolding value_of init_series put
  record_points input len i [] result = some result
  record_points input len i (p ∷ ps) result = elim (value_of p.key i input) [
    | none ↦ none
    | some v ↦
        let s = init_series p.key input len result in
        record_points input len i ps (put p.key (record s { values = set s.values i v }) result)
  ]

  -- The loop over so many times more, from a time on. Of a heap's order and its opposite, the first
  -- is that of the heap.
  unfoldable pub process_times :
      (SeriesValue → SeriesValue → Bool)
      → (SeriesValue → SeriesValue → Bool)
      → SeriesSet
      → ℕ
      → ℕ
      → ℕ
      → ℕ
      → SeriesSet
      → Option SeriesSet
  unfolding points offer_all record_points
  process_times less greater input len limit i zero result = some result
  process_times less greater input len limit i (suc n) result =
      elim (offer_all less greater limit (points i input) []) [
        | none ↦ none
        | some h ↦ elim (record_points input len i h result) [
          | none ↦ none
          | some result' ↦ process_times less greater input len limit (suc i) n result'
        ]
      ]

  unfoldable pub process_top_k : SeriesSet → ℕ → ℕ → Option SeriesSet
  unfolding process_times data_point_less_than data_point_greater_than
  process_top_k input len limit =
      process_times data_point_less_than data_point_greater_than input len limit 0 len []

  unfoldable pub process_bottom_k : SeriesSet → ℕ → ℕ → Option SeriesSet
  unfolding process_times data_point_less_than data_point_greater_than
  process_bottom_k input len limit =
      process_times data_point_greater_than data_point_less_than input len limit 0 len []
