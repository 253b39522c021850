-- ===== src/Grouping.antt =====
-- traceql/engine_metrics.go: the aggregators of the first stage of metrics queries that sort spans into
-- series. Aggregators are shared by pointers, so they stand in a store at their addresses. The spans of
-- the storage layer, what attributes print as, and the aggregator within are parameters.
pub mod Buffer
pub mod Values
pub mod Stored
pub mod Found
pub mod Grouped
pub mod Output
pub mod Steps
use traceql_syntax.Base.{
  ℕ, zero, suc, ◌+◌, Bool, true, false, not, ◌&&◌, ◌||◌, List, [], ◌∷◌, ◌++◌, map, ◌==◌, Option,
  none, some, Text, length, get_elem?, set, ltb, if◌then◌else◌,
}
use traceql_syntax.StaticType.{type_nil, type_eq}
use traceql_syntax.Static.{Static, static_nil, type_of}
use traceql_syntax.Attribute.{
  Attribute, AttributeScope, Intrinsic, intrinsic_eq, intrinsic_none, scope_code, scope_none,
  scope_span, scope_resource, new_scoped_attribute,
}
use traceql_syntax.Pipeline.Group.{StaticMapKey, key_eq, map_key}
use traceql_syntax.Series.{Label, Labels, Exemplar, TimeSeries, SeriesSet, labels_map_key, put}

-- The operations of an aggregator within, whose states are of the type `R`.
pub record RangeAggregator (S R : Type 0) : Type 0 where
  pub create : R
  pub observe : S → R → R
  pub observe_exemplar : ℕ → ℕ → Labels → R → R
  pub samples : R → List ℕ
  pub exemplars : R → List Exemplar

pub record Config (S R : Type 0) : Type 0 where
  pub by : List Attribute
  pub by_lookups : List (List Attribute)
  pub by_func : Option (S → Option Static)
  pub by_func_label : Text
  pub inner_agg : RangeAggregator S R

abbrev pub FastStatic : Type 0
FastStatic = List StaticMapKey

-- An aggregator by its address.
pub record AggregatorWithValues : Type 0 where
  pub agg : ℕ
  pub vals : List Static

abbrev pub SeriesMap : Type 0
SeriesMap = List (FastStatic × AggregatorWithValues)

pub record FastStaticWithValues : Type 0 where
  pub fast : FastStatic
  pub vals : List Static

pub record GroupingAggregator (R : Type 0) : Type 0 where
  pub store : List R
  pub series : SeriesMap
  pub last_series : Option AggregatorWithValues
  pub buf : FastStaticWithValues
  pub last_buf : FastStaticWithValues

unfoldable pub fast_eq : FastStatic → FastStatic → Bool
unfolding key_eq
fast_eq [] [] = true
fast_eq [] (b ∷ bs) = false
fast_eq (a ∷ fs) [] = false
fast_eq (a ∷ fs) (b ∷ bs) = key_eq a b && fast_eq fs bs

unfoldable pub find_group : FastStatic → SeriesMap → Option AggregatorWithValues
unfolding fast_eq
find_group f [] = none
find_group f ((k, s) ∷ rest) =
    let later = find_group f rest in if fast_eq k f then some s else later

unfoldable pub lookups_for : Attribute → List Attribute
unfolding intrinsic_eq scope_code new_scoped_attribute
lookups_for attr =
    if intrinsic_eq attr.intrinsic intrinsic_none && scope_code attr.scope == scope_code scope_none
    then new_scoped_attribute scope_span false attr.name
      ∷ new_scoped_attribute scope_resource false attr.name
      ∷ []
    else attr ∷ []

abbrev pub no_key : StaticMapKey
no_key = record { typ = type_nil; code = 0; str = [] }

-- Arrays of a length.
unfoldable pub arrays : ℕ → FastStaticWithValues
arrays zero = record { fast = []; vals = [] }
arrays (suc n) =
    let rest = arrays n in record { fast = no_key ∷ rest.fast; vals = static_nil ∷ rest.vals }

-- The number of values.
abbrev pub agg_num : {S R : Type 0} → Config S R → ℕ
agg_num c = length c.by_lookups + elim c.by_func [ none ↦ 0 | some f ↦ 1 ]

module _ {R : Type 0} where
  unfoldable pub new_grouping_aggregator : ℕ → GroupingAggregator R
  unfolding arrays
  new_grouping_aggregator n = record {
    store = [];
    series = [];
    last_series = none;
    buf = arrays n;
    last_buf = arrays n;
  }

module _ {S : Type 0} (attribute_for : S → Attribute → Option Static) where
  unfoldable pub lookup : List Attribute → S → Static
  lookup [] span = static_nil
  lookup (n ∷ ns) span =
      let rest = lookup ns span in elim (attribute_for span n) [ none ↦ rest | some v ↦ v ]

module _ (sum64 : List ℕ → ℕ) where
  -- A write of a value and its key at an index of the buffer; `none` is the panic out of range.
  unfoldable pub write_buf : ℕ → Static → FastStaticWithValues → Option FastStaticWithValues
  unfolding map_key
  write_buf i v buf =
      if ltb i (length buf.fast) && ltb i (length buf.vals)
      then some (record { fast = set buf.fast i (map_key sum64 v); vals = set buf.vals i v })
      else none

module _ {S : Type 0} (attribute_for : S → Attribute → Option Static) (sum64 : List ℕ → ℕ) where
  -- The loop over the lookups, from an index on.
  unfoldable pub write_lookups :
      ℕ → List (List Attribute) → S → FastStaticWithValues → Option FastStaticWithValues
  unfolding write_buf lookup
  write_lookups i [] span buf = some buf
  write_lookups i (ls ∷ lookups) span buf =
      elim (write_buf sum64 i (lookup attribute_for ls span) buf) [
        | none ↦ none
        | some buf' ↦ write_lookups (i + 1) lookups span buf'
      ]

module _ {S R : Type 0} where
  -- A series of the map, which is a new one if there is none.
  unfoldable pub find_or_create :
      Config S R → GroupingAggregator R → GroupingAggregator R × AggregatorWithValues
  unfolding find_group
  find_or_create c g = elim (find_group g.buf.fast g.series) [
    | some s ↦ (g, s)
    | none ↦
        let s : AggregatorWithValues = record { agg = length g.store; vals = g.buf.vals } in
        (
          record g {
            store = g.store ++ (c.inner_agg.create ∷ []);
            series = (g.buf.fast, s) ∷ g.series;
          },
          s,
        )
  ]

  unfoldable pub get_series_slowly :
      Config S R → GroupingAggregator R → GroupingAggregator R × AggregatorWithValues
  unfolding find_or_create
  get_series_slowly c g =
      let (g', s) = find_or_create c g in (record g' { last_buf = g'.buf; last_series = some s }, s)

  unfoldable pub get_series :
      Config S R → GroupingAggregator R → GroupingAggregator R × AggregatorWithValues
  unfolding get_series_slowly fast_eq
  get_series c g = elim g.last_series [
    | none ↦ get_series_slowly c g
    | some s ↦ if fast_eq g.last_buf.fast g.buf.fast then (g, s) else get_series_slowly c g
  ]

-- The aggregator of a series does something; `none` would be a nil pointer.
unfoldable pub act_on :
    {R : Type 0}
    → (R → R)
    → GroupingAggregator R × AggregatorWithValues
    → Option (GroupingAggregator R)
act_on act (g, s) = elim (get_elem? g.store s.agg) [
  | none ↦ none
  | some r ↦ some (record g { store = set g.store s.agg (act r) })
]

module _ {S R : Type 0} (attribute_for : S → Attribute → Option Static) (sum64 : List ℕ → ℕ) where
  -- The buffer, and whether the span is one to keep.
  unfoldable pub get_grouping_values :
      Config S R → S → FastStaticWithValues → Option (FastStaticWithValues × Bool)
  unfolding write_lookups write_buf
  get_grouping_values g span buf =
      elim (write_lookups attribute_for sum64 0 g.by_lookups span buf) [
        | none ↦ none
        | some buf' ↦ elim g.by_func [
          | none ↦ some (buf', true)
          | some by_func ↦ elim (by_func span) [
            | none ↦ some (buf', false)
            | some v ↦ elim (write_buf sum64 (length g.by_lookups) v buf') [
              | none ↦ none
              | some buf'' ↦ some (buf'', true)
            ]
          ]
        ]
      ]

  -- The aggregator of the span's series does something.
  unfoldable pub with_series :
      Config S R → (R → R) → S → GroupingAggregator R → Option (GroupingAggregator R)
  unfolding get_grouping_values get_series act_on
  with_series c act span g = elim (get_grouping_values c span g.buf) [
    | none ↦ none
    | some (buf, kept) ↦
        let acted = act_on act (get_series c (record g { buf = buf })) in
        if kept then acted else some (record g { buf = buf })
  ]

  unfoldable pub observe : Config S R → S → GroupingAggregator R → Option (GroupingAggregator R)
  unfolding with_series
  observe c span g = with_series c (c.inner_agg.observe span) span g

  unfoldable pub observe_exemplar :
      (S → Labels) → Config S R → S → ℕ → ℕ → GroupingAggregator R → Option (GroupingAggregator R)
  unfolding with_series
  observe_exemplar all_attributes c span value ts g =
      with_series c (c.inner_agg.observe_exemplar value ts (all_attributes span)) span g
